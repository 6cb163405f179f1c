-- ===== src/Scheduler/Dispatch/Counters.antt =====
-- The times of one process over the turns in which it waits.
use krnl.Base.{
  sym, subst, inl, inr, ℕ, ◌+◌, ◌%◌, ◌≤◌, ◌<◌, ◌≡◌, ◌≢◌, ◌↔◌, refl, ap, ◌∙◌, true, false, arith,
  get_or,
}
use krnl.Process.{
  max_stack_sz, UserProcess, ultra_high, can_be_scheduled, word_mod, affinity_eq, affinity_value,
}
use krnl.Process.States.{IsReady, can_be_scheduled_iff}
use krnl.Scheduler.Dispatch.{wait_turn, after_switch}

-- A process that only waits for its time to pass.
pub record Waiting (sig : ℕ) (p : UserProcess) : Type 0 where
  pub small : p.p_time < word_mod
  pub ordinary : p.affinity ≢ ultra_high
  pub ready : IsReady sig (record p { p_time = 0 })

-- It can be scheduled exactly when its time is over.
pub Waiting-can_be_scheduled :
    (sig : ℕ) (p : UserProcess) → Waiting sig p → (can_be_scheduled sig p ≡ true) ↔ (p.p_time ≡ 0)
Waiting-can_be_scheduled sig p w = (forth, back)
  where
    forth : can_be_scheduled sig p ≡ true → p.p_time ≡ 0
    forth e = elim ((can_be_scheduled_iff sig p).0 e) [
      | inl ultra ↦ absurd (w.ordinary ultra)
      | inr r ↦ r.no_time
    ]

    back : p.p_time ≡ 0 → can_be_scheduled sig p ≡ true
    back e = (can_be_scheduled_iff sig p).1 (
        inr (record {
          status = w.ready.status;
          affinity = w.ready.affinity;
          stack = w.ready.stack;
          named = w.ready.named;
          untrapped = w.ready.untrapped;
          no_time = e;
        }))

-- A turn that it waits takes one off its time.
pub wait_turn-Waiting :
    (sig : ℕ) (p : UserProcess)
    → Waiting sig p
    → p.p_time ≢ 0
    → Waiting sig (wait_turn p) × ((wait_turn p).p_time + 1 ≡ p.p_time)
unfolding wait_turn
wait_turn-Waiting sig p w left =
    let affinity : (wait_turn p).affinity ≡ p.affinity = ground arith in
    let status : (wait_turn p).status ≡ p.status = ground arith in
    let stack : (wait_turn p).stack_size ≡ p.stack_size = ground arith in
    let name : (wait_turn p).name ≡ p.name = ground arith in
    let signal : (wait_turn p).signal_id ≡ p.signal_id = ground arith in
    (
      record {
        small = ground arith;
        ordinary = λ e. w.ordinary (sym affinity ∙ e);
        ready = record {
          status = status ∙ w.ready.status;
          affinity = λ e. w.ready.affinity (sym affinity ∙ e);
          stack = subst (λ x. x ≤ max_stack_sz) (sym stack) w.ready.stack;
          named = λ e. w.ready.named (ap (λ x. get_or x 0 0) (sym name) ∙ e);
          untrapped = λ e. w.ready.untrapped (sym signal ∙ e);
          no_time = refl;
        };
      },
      ground (arith, w.small, left),
    )

-- A process of the ultra-high affinity keeps its time, whatever its cooldown; of any other, a switch
-- takes time off or adds the least step, and the times stay in 64 bits.
pub after_switch-time :
    (p : UserProcess)
    → p.p_time < word_mod
    → p.r_time < word_mod
    → ((affinity_eq ultra_high p.affinity ≡ true → after_switch p ≡ p)
        × ((after_switch p).p_time < word_mod)
        × (affinity_eq ultra_high p.affinity ≡ false
            → p.r_time ≤ p.p_time
            → (after_switch p).p_time ≡ (p.p_time + affinity_value ultra_high) % word_mod))
unfolding after_switch
after_switch-time p h k = (λ e. ground arith, ground arith, λ e f. ground arith)
