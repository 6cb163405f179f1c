-- ===== src/Process/States.antt =====
-- The states of one process.
use krnl.Base.{
  ap, ℕ, ◌≤◌, ◌≡◌, ◌≢◌, ◌↔◌, ◌⊎◌, inl, inr, refl, Bool-cases, true, false, arith, get_or,
}
use krnl.Process.{
  UserProcess, ProcessStatusKind, AffinityKind, ultra_high, running, max_stack_sz, can_be_scheduled,
  crash, wake, affinity_eq, is_running, is_alive,
}

-- What a process of the ordinary affinities must meet to be scheduled.
pub record IsReady (sig : ℕ) (p : UserProcess) : Type 0 where
  pub status : p.status ≡ running
  pub affinity : p.affinity ≢ AffinityKind.invalid
  pub stack : p.stack_size ≤ max_stack_sz
  pub named : get_or p.name 0 0 ≢ 0
  pub untrapped : p.signal_id ≢ sig
  pub no_time : p.p_time ≡ 0

affinity_eq→eq : (a b : AffinityKind) → affinity_eq a b ≡ true → a ≡ b
affinity_eq→eq a b h = ground arith

is_running→eq : (k : ProcessStatusKind) → is_running k ≡ true → k ≡ running
is_running→eq k h = ground arith

valid_affinity :
    (a : AffinityKind) → a ≢ AffinityKind.invalid → affinity_eq a AffinityKind.invalid ≡ false
valid_affinity a h = ground arith

-- A process can be scheduled exactly if its affinity is the ultra-high one, or it is running, of a
-- valid affinity, with a stack within the limit and a name, not trapped, and out of time.
pub can_be_scheduled_iff :
    (sig : ℕ) (p : UserProcess)
    → (can_be_scheduled sig p ≡ true) ↔ ((p.affinity ≡ ultra_high) ⊎ IsReady sig p)
unfolding can_be_scheduled
can_be_scheduled_iff sig p = (forth, back)
  where
    forth : can_be_scheduled sig p ≡ true → (p.affinity ≡ ultra_high) ⊎ IsReady sig p
    forth h = elim (Bool-cases (affinity_eq p.affinity ultra_high)) [
      | inl ultra ↦ inl (affinity_eq→eq p.affinity ultra_high ultra)
      | inr other ↦ inr (record {
        status = is_running→eq p.status (ground arith);
        affinity = λ e. ground arith;
        stack = ground arith;
        named = ground arith;
        untrapped = ground arith;
        no_time = ground arith;
      })
    ]

    back : (p.affinity ≡ ultra_high) ⊎ IsReady sig p → can_be_scheduled sig p ≡ true
    back (inl ultra) = ground arith
    back (inr r) = ground (arith, valid_affinity p.affinity r.affinity, ap is_running r.status)

-- A crash ends a running process and no other; a crashed one is not alive, and waking it makes it
-- run again.
pub crash_lem :
    (p : UserProcess)
    → (is_alive (crash p) ≡ false)
      × (p.status ≢ running → crash p ≡ p)
      × (is_alive (wake (crash p) true) ≡ true)
unfolding crash wake is_alive
crash_lem p = (ground arith, λ h. ground arith, refl)
