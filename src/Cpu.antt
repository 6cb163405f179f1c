-- ===== src/Cpu.antt =====
-- The hardware threads of private/minkernel/src/HardwareThreadScheduler.cpp, and
-- `UserProcessHelper::Switch` of UserProcessScheduler.cpp, which looks for one to run a task.
-- `hal_check_task` and `mp_register_task` belong to the platform and are parameters.
pub mod Search
use krnl.Base.{
  ℕ, zero, suc, ◌+◌, Bool, true, false, not, ◌&&◌, ◌||◌, List, [], ◌∷◌, Option, none, some, ltb,
  ◌==◌, if◌then◌else◌, length, get_elem?,
}

pub data ThreadKind : Type 0 where
  invalid system_reserved standard real_time boot : ThreadKind

pub record HardwareThread : Type 0 where
  pub stack : ℕ
  pub kind : ThreadKind
  pub id : ℕ
  pub wakeup : Bool
  pub busy : Bool
  pub p_time : ℕ

-- The thread list, of a fixed number of cores, and the index that was looked up last.
pub record Cpus : Type 0 where
  pub threads : List HardwareThread
  pub current_idx : ℕ

unfoldable pub is_busy : HardwareThread → Bool
is_busy t = t.busy

unfoldable pub set_busy : HardwareThread → Bool → HardwareThread
set_busy t busy = record t { busy = busy }

unfoldable pub set_wakeup : HardwareThread → Bool → HardwareThread
set_wakeup t wakeup = record t { wakeup = wakeup }

unfoldable pub is_wakeup : HardwareThread → Bool
is_wakeup t = t.wakeup

-- `HardwareThread::operator bool`.
unfoldable pub is_ready : HardwareThread → Bool
is_ready t = not (t.stack == 0) && not t.busy

-- `Array::Count` is the array's fixed size, and `Array::Empty` tests that it is positive.
pub array_empty : Cpus → Bool
array_empty c = ltb 0 (length c.threads)

-- `HardwareThreadScheduler::operator bool`.
pub has_threads : Cpus → Bool
unfolding array_empty
has_threads c = not (array_empty c)

-- `HardwareThreadScheduler::operator!`.
unfoldable pub no_threads : Cpus → Bool
unfolding array_empty
no_threads c = array_empty c

unfoldable pub capacity : Cpus → ℕ
capacity c = length c.threads

-- What the subscript yields: a null thread, a thread, or a place behind the array.
pub data Subscript : Type 0 where
  fake : Subscript
  at : HardwareThread → Subscript
  out_of_bounds : ℕ → Subscript

-- `operator[]`, with the number of cores for `kMaxAPInsideSched`.
pub subscript : Cpus → ℕ → Subscript × Cpus
subscript c idx = if ltb (length c.threads) idx then (fake, c) else (
  elim (get_elem? c.threads idx) [ none ↦ out_of_bounds idx | some t ↦ at t ],
  record c { current_idx = idx },
)

abbrev pub is_skipped : ThreadKind → Bool
is_skipped invalid = true
is_skipped boot = true
is_skipped _ = false

module _ (check_task : ℕ → Bool) (register_task : ℕ → ℕ → Bool) where
  -- `HardwareThread::Switch`.
  unfoldable pub thread_switch : HardwareThread → ℕ → Bool × HardwareThread
  thread_switch t frame =
      if frame == 0
      then (false, t)
      else if not (check_task frame)
      then (false, t)
      else (register_task frame t.id, record t { stack = frame })

  -- The loop of `UserProcessHelper::Switch` over the threads from `index` on. `p_time` is the
  -- process's time, which the thread is given. The last index looked up comes third.
  unfoldable pub switch_loop : ℕ → ℕ → ℕ → ℕ → List HardwareThread → Bool × List HardwareThread × ℕ
  unfolding thread_switch
  switch_loop frame p_time index last [] = (false, [], last)
  switch_loop frame p_time index last (t ∷ ts) =
      let rest = switch_loop frame p_time (index + 1) index ts in
      let skipped : Bool × List HardwareThread × ℕ = (rest.0, t ∷ rest.1, rest.2) in
      if is_skipped t.kind
      then skipped
      else if t.busy
      then skipped
      else (let (ret, t') = thread_switch (record t { busy = true }) frame in
          if not ret
          then (rest.0, t' ∷ rest.1, rest.2)
          else (true, record t' { p_time = p_time } ∷ ts, index))

  -- `UserProcessHelper::Switch`, for a process with a stack frame.
  unfoldable pub helper_switch : Cpus → ℕ → ℕ → Bool × Cpus
  unfolding switch_loop
  helper_switch c frame p_time =
      let (done, threads, last) = switch_loop frame p_time 0 c.current_idx c.threads in
      (done, record { threads = threads; current_idx = last })
