-- ===== src/Scheduler/Dispatch/Turns.antt =====
-- Turns of the scheduler over the whole team.
use krnl.Base.{
  subst, ℕ, ◌+◌, ◌≤◌, ◌<◌, ◌≡◌, ◌≢◌, ◌⊎◌, inl, inr, refl, sym, ap, ◌∙◌, Bool, true, false, not,
  List, [], ◌∷◌, Option-cases, some, arith, length, get_elem?, get_elem?-set_ne, set, length-set,
}
use krnl.Base.Int.{is_positive}
use krnl.Process.{UserProcess}
use krnl.Scheduler.{Scheduler}
use krnl.Scheduler.Dispatch.{
  next_index, before_switch, after_switch, wait_turn, RunOutcome, idle, ran, turn, run,
  any_schedulable, none_schedulable,
}
use krnl.Scheduler.Slots.{get_elem?-end, get_elem?-length}

-- `operator!` is the negation of `operator bool`.
pub none-any_schedulable :
    (sig : ℕ) (ps : List UserProcess) → none_schedulable sig ps ≡ not (any_schedulable sig ps)
unfolding none_schedulable any_schedulable
none-any_schedulable sig [] = refl
none-any_schedulable sig (p ∷ ps) = ground (arith, none-any_schedulable sig ps)

module _ (check_task : ℕ → Bool) (register_task : ℕ → ℕ → Bool) (sig : ℕ) where
  -- The index of `Run` grows past the array before it starts again: in a team with a process, a
  -- turn that finds the index at the last slot or one behind it reads outside the array.
  run_behind_array :
      (s : Scheduler)
      → is_positive s.team.process_cur ≡ true
      → length s.team.processes ≤ s.index + 1
      → s.index ≤ length s.team.processes
      → run check_task register_task sig s ≡ RunOutcome.out_of_bounds
  unfolding run next_index
  run_behind_array s some_process low high =
      ground (arith, get_elem?-end s.team.processes (s.index + 1))

  -- Nobody runs in a team with no process.
  run_idle :
      (s : Scheduler)
      → is_positive s.team.process_cur ≡ false
      → run check_task register_task sig s ≡ idle
  unfolding run
  run_idle s h = ground arith

  -- What a turn leaves alone.
  pub record TurnOf (s : Scheduler) (i : ℕ) (u : Scheduler) : Type 0 where
    pub index : u.index ≡ i
    pub count : u.team.process_cur ≡ s.team.process_cur
    pub same_length : length u.team.processes ≡ length s.team.processes
    pub others : (j : ℕ) → i ≢ j → get_elem? u.team.processes j ≡ get_elem? s.team.processes j

  -- The processes after a turn.
  turn_processes :
      (s : Scheduler) (i : ℕ) (p : UserProcess) (k : ℕ) (u : Scheduler)
      → turn check_task register_task sig s i p ≡ ran k u
      → (k ≡ i)
        × (u.index ≡ s.index)
        × (u.team.process_cur ≡ s.team.process_cur)
        × ((u.team.processes ≡ set s.team.processes i (before_switch p))
            ⊎ ((u.team.processes
                  ≡ set
                      (set s.team.processes i (before_switch p))
                      i
                      (after_switch (before_switch p)))
                ⊎ (u.team.processes ≡ set s.team.processes i (wait_turn p))))
  unfolding turn
  turn_processes s i p k u e = ground arith

  set-TurnOf :
      (s : Scheduler) (i : ℕ) (u : Scheduler) (q : UserProcess)
      → u.index ≡ i
      → u.team.process_cur ≡ s.team.process_cur
      → u.team.processes ≡ set s.team.processes i q
      → TurnOf s i u
  set-TurnOf s i u q at count e = record {
    index = at;
    count = count;
    same_length = ap length e ∙ length-set s.team.processes i q;
    others = λ j ne. ap (λ ps. get_elem? ps j) e ∙ get_elem?-set_ne s.team.processes q ne;
  }

  set_twice-TurnOf :
      (s : Scheduler) (i : ℕ) (u : Scheduler) (q r : UserProcess)
      → u.index ≡ i
      → u.team.process_cur ≡ s.team.process_cur
      → u.team.processes ≡ set (set s.team.processes i q) i r
      → TurnOf s i u
  set_twice-TurnOf s i u q r at count e = record {
    index = at;
    count = count;
    same_length =
        ap length e ∙ length-set (set s.team.processes i q) i r ∙ length-set s.team.processes i q;
    others = λ j ne.
        ap (λ ps. get_elem? ps j) e
        ∙ get_elem?-set_ne (set s.team.processes i q) r ne
        ∙ get_elem?-set_ne s.team.processes q ne;
  }

  pub turn-TurnOf :
      (s : Scheduler) (i : ℕ) (p : UserProcess) (k : ℕ) (u : Scheduler)
      → s.index ≡ i
      → turn check_task register_task sig s i p ≡ ran k u
      → (k ≡ i) × TurnOf s i u
  turn-TurnOf s i p k u at e =
      let (same, index, count, cases) = turn_processes s i p k u e in
      (
        same,
        elim cases [
          | inl f ↦ set-TurnOf s i u _ (index ∙ at) count f
          | inr (inl f) ↦ set_twice-TurnOf s i u _ _ (index ∙ at) count f
          | inr (inr f) ↦ set-TurnOf s i u _ (index ∙ at) count f
        ],
      )

  pub taken_turn :
      (s u : Scheduler) (k : ℕ)
      → run check_task register_task sig s ≡ ran k u
      → (p : UserProcess) × (get_elem? s.team.processes
            (next_index (length s.team.processes) s.index)
          ≡ some p)
        × (turn check_task register_task sig
              (record s { index = next_index (length s.team.processes) s.index })
              (next_index (length s.team.processes) s.index)
              p
            ≡ ran k u)
  unfolding run
  taken_turn s u k e =
      elim (Option-cases
        (get_elem? s.team.processes (next_index (length s.team.processes) s.index))) [
          | inl h ↦ ground arith
          | inr (p, h) ↦ (p, h, ground arith)
        ]

  next_index-cases :
      (limit index : ℕ)
      → ((limit < index) × (next_index limit index ≡ 0))
        ⊎ ((index ≤ limit) × (next_index limit index ≡ index + 1))
  unfolding next_index
  next_index-cases limit index = ground arith

  -- A turn that is taken is the next slot's: the index moves on by one, or to 0 from behind the
  -- array; the index lies in the array; and no other process, nor the count or the length of the
  -- team, changes.
  pub run-TurnOf :
      (s u : Scheduler) (k : ℕ)
      → run check_task register_task sig s ≡ ran k u
      → (((length s.team.processes < s.index) × (k ≡ 0))
          ⊎ ((s.index ≤ length s.team.processes) × (k ≡ s.index + 1)))
        × (k < length s.team.processes)
        × TurnOf s k u
  run-TurnOf s u k e =
      let (p, found, taken) = taken_turn s u k e in
      let (same, rest) = turn-TurnOf _ _ p k u refl taken in
      (
        elim (next_index-cases (length s.team.processes) s.index) [
          | inl (over, first) ↦ inl (over, same ∙ first)
          | inr (within, next) ↦ inr (within, same ∙ next)
        ],
        subst (λ i. i < length s.team.processes) (sym same)
            (get_elem?-length s.team.processes _ p found),
        subst (λ i. TurnOf s i u) (sym same)
            (record {
              index = rest.index;
              count = rest.count;
              same_length = rest.same_length;
              others = rest.others;
            }),
      )
