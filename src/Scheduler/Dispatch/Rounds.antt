-- ===== src/Scheduler/Dispatch/Rounds.antt =====
-- A process that waits, over any number of turns of `Run`.
use krnl.Base.{ℕ, suc, ◌≡◌, ◌≢◌, Bool, false, some, get_elem?}
use krnl.Process.{UserProcess, can_be_scheduled}
use krnl.Scheduler.{Scheduler}
use krnl.Scheduler.Dispatch.{ran, run}

module _ (check_task : ℕ → Bool) (register_task : ℕ → ℕ → Bool) (sig : ℕ) where
  -- Turns of `Run`, of which `n` come to the slot `i` and find a process that cannot be scheduled;
  -- the others come to other slots.
  pub data Rounds (i : ℕ) : Scheduler → ℕ → Scheduler → Type 0 where
    start : {s : Scheduler} → Rounds i s 0 s
    other :
        {s t u : Scheduler} {n k : ℕ}
        → run check_task register_task sig s ≡ ran k t
        → k ≢ i
        → Rounds i t n u
        → Rounds i s n u
    waits :
        {s t u : Scheduler} {n : ℕ} {p : UserProcess}
        → run check_task register_task sig s ≡ ran i t
        → get_elem? s.team.processes i ≡ some p
        → can_be_scheduled sig p ≡ false
        → Rounds i t n u
        → Rounds i s (suc n) u
