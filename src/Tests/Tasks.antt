-- ===== src/Tests/Tasks.antt =====
-- A team of three processes on a machine with two hardware threads.
use krnl.Base.{
  ℕ, zero, suc, ◌+◌, ◌-◌, ◌<◌, ◌≤◌, ◌≡◌, ◌⊎◌, ◌≢◌, refl, Bool, true, false, arith, not, ◌&&◌, ◌==◌,
  List, [], ◌∷◌, some, length, get_elem?, drop, replicate,
}
use krnl.Base.Int.{pos, dec}
use krnl.Process.{
  UserProcess, AffinityKind, running, standard, high, very_high, executable, name_len, max_stack_sz,
  process_limit_per_team, can_be_scheduled,
}
use krnl.Cpu.{HardwareThread, ThreadKind, Cpus}
use krnl.Cpu.Search.{Search}
use krnl.Scheduler.{
  Team, Scheduler, spawn, spawned, remove, removed, Release, heap_tree, file_tree, page_dir, block,
}
use krnl.Scheduler.Slots.{IsFresh, spawn-IsFresh}
use krnl.Scheduler.Exits.{IsGone, Released, remove-IsGone, spawn-remove_overwrites}
use krnl.Scheduler.Dispatch.{run, RunOutcome, ran}
use krnl.Scheduler.Dispatch.Turns.{TurnOf, run-TurnOf}
use krnl.Scheduler.Dispatch.Rounds.{Rounds}
use krnl.Mutex.{lock, unlock}
use krnl.Mutex.Inheritance.{held, free, unlock-lock_restores}

abbrev worker : ℕ → AffinityKind → UserProcess
worker time affinity = record {
  name = 119 ∷ replicate (name_len - 1) 0;
  stack_frame = 512;
  affinity = affinity;
  status = running;
  stack_size = max_stack_sz;
  dylib_delegate = 0;
  has_parent = true;
  used_memory = 0;
  signal_id = 0;
  image_code = 4096;
  image_blob = 0;
  image_blob_sz = 0;
  file_tree = 8192;
  heap_tree = 0;
  p_time = time;
  r_time = 0;
  u_time = 0;
  s_time = 0;
  process_id = pos 0;
  kind = executable;
  last_exit_code = pos 0;
  vm_register = 0;
}

abbrev thread : ThreadKind → HardwareThread
thread kind = record { stack = 0; kind = kind; id = 1; wakeup = false; busy = false; p_time = 0 }

abbrev machine : Cpus
machine = record {
  threads = thread ThreadKind.boot ∷ thread ThreadKind.standard ∷ [];
  current_idx = 0;
}

abbrev team : Team
team = record {
  processes = worker 0 standard ∷ worker 5 standard ∷ worker 0 high ∷ [];
  current = worker 0 standard;
  id = pos 0;
  process_cur = pos 2;
}

abbrev scheduler : ℕ → Scheduler
scheduler index = record { team = team; cpus = machine; index = index }

abbrev accepts : ℕ → Bool
accepts frame = true

abbrev starts : ℕ → ℕ → Bool
starts frame id = true

abbrev fails : ℕ → ℕ → Bool
fails frame id = false

-- The string "hi" spawned behind the two processes of the team.
spawn_example :
    (u : Team) × (q : UserProcess) × (spawn 600 700 0 team (some (104 ∷ 105 ∷ [])) 4096 0 0
      ≡ spawned (pos 2) u)
    × (u.process_cur ≡ pos (2 + 1))
    × (get_elem? u.processes 2 ≡ some q)
    × IsFresh q (pos 2) 4096 0 0 600
    × (q.name ≡ 104 ∷ 105 ∷ drop (length {A = ℕ} (104 ∷ 105 ∷ [])) (worker 0 high).name)
    × ((j : ℕ) → 2 ≢ j → get_elem? u.processes j ≡ get_elem? team.processes j)
spawn_example =
    spawn-IsFresh 600 700 0 team 104 (105 ∷ []) 4096 0 0 2 (worker 0 high) (λ e. omega (arith, e))
      (λ e. omega (arith, e)) (λ e. omega (arith, e)) (omega arith) (omega arith) (omega arith) refl
      refl

abbrev full_team : Team
full_team = record team {
  processes = replicate process_limit_per_team (worker 0 standard);
  process_cur = pos process_limit_per_team;
}

abbrev invalid_ptr : List Release → ℕ → Bool
invalid_ptr before ptr = false

-- Pointers that are valid until a block is released at them.
abbrev once_valid : List Release → ℕ → Bool
once_valid [] ptr = true
once_valid (block q ∷ before) ptr = not (q == ptr) && once_valid before ptr
once_valid (heap_tree q ∷ before) ptr = once_valid before ptr
once_valid (file_tree q ∷ before) ptr = once_valid before ptr
once_valid (page_dir q ∷ before) ptr = once_valid before ptr

abbrev finishes : UserProcess → Bool
finishes p = true

remove_example :
    (u : Team) × (q : UserProcess) × (rs : List Release) × (remove finishes once_valid team (pos 1)
      ≡ removed u rs)
    × Released once_valid (worker 5 standard) rs
    × (u.process_cur ≡ dec team.process_cur)
    × (get_elem? u.processes 1 ≡ some q)
    × IsGone q
    × (q.name ≡ (worker 5 standard).name)
    × (q.kind ≡ (worker 5 standard).kind)
    × (q.has_parent ≡ true)
    × ((j : ℕ) → 1 ≢ j → get_elem? u.processes j ≡ get_elem? team.processes j)
remove_example =
    remove-IsGone finishes once_valid team 1 (worker 5 standard) (omega arith) (omega arith) refl
      refl refl refl

overwrites_example :
    (u v : Team) × (q gone : UserProcess) × (rs : List Release) × (remove finishes invalid_ptr team
        (pos 0)
      ≡ removed u rs)
    × Released invalid_ptr (worker 0 standard) rs
    × (get_elem? u.processes 1 ≡ some (worker 5 standard))
    × (spawn 600 700 0 u (some (104 ∷ [])) 4096 0 0 ≡ spawned (pos 1) v)
    × (get_elem? v.processes 1 ≡ some q)
    × IsFresh q (pos 1) 4096 0 0 600
    × (get_elem? v.processes 0 ≡ some gone)
    × IsGone gone
overwrites_example =
    spawn-remove_overwrites finishes invalid_ptr 600 700 0 team 0 1 (worker 0 standard)
      (worker 5 standard) 104 [] 4096 0 0 (λ e. omega (arith, e)) (omega arith) (omega arith)
      (omega arith) refl refl refl refl refl refl refl (λ e. omega (arith, e))
      (λ e. omega (arith, e)) (λ e. omega (arith, e)) (omega arith) (omega arith)

abbrev state_of : RunOutcome → Scheduler
state_of (ran k u) = u
state_of _ = scheduler 0

abbrev second : ℕ
second = 1

run_example :
    (((length (scheduler 0).team.processes < (scheduler 0).index) × (second ≡ 0))
      ⊎ (((scheduler 0).index ≤ length (scheduler 0).team.processes)
          × (second ≡ (scheduler 0).index + 1)))
    × (1 < length (scheduler 0).team.processes)
    × TurnOf accepts starts 0 (scheduler 0) 1 (state_of (run accepts starts 0 (scheduler 0)))
unfolding run can_be_scheduled
run_example =
    run-TurnOf accepts starts 0 (scheduler 0) (state_of (run accepts starts 0 (scheduler 0))) 1
      ran_at_one
  where
    ran_at_one :
        run accepts starts 0 (scheduler 0) ≡ ran 1 (state_of (run accepts starts 0 (scheduler 0)))
    ran_at_one = refl

abbrev waited : Scheduler
waited = state_of (run accepts starts 5 (scheduler 0))

-- Processes 1, 2 and 3 in order of their affinities' values.
abbrev waiters : ℕ → UserProcess
waiters (suc zero) = worker 0 standard
waiters (suc (suc zero)) = worker 0 high
waiters _ = worker 0 very_high

restores_example :
    (((lock (held 1) waiters 2).2 1).affinity ≡ (waiters 2).affinity)
    × ((unlock (lock (held 1) waiters 2).1 (lock (held 1) waiters 2).2).1 ≡ free)
    × ((r : ℕ) → (unlock (lock (held 1) waiters 2).1 (lock (held 1) waiters 2).2).2 r ≡ waiters r)
restores_example =
    unlock-lock_restores waiters 1 2 (λ e. omega (arith, e)) (λ e. omega (arith, e)) refl refl
