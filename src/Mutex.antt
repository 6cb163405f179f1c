-- ===== src/Mutex.antt =====
-- The binary mutex with priority inheritance of private/minkernel/src/BinaryMutex.cpp. It keeps the
-- address of the process that holds it, 0 for none; the processes are a store from addresses, since
-- the mutex changes the affinity of the very process that others see.
pub mod Inheritance
use krnl.Base.{ℕ, Bool, true, false, not, ◌&&◌, ◌==◌, if◌then◌else◌}
use krnl.Process.{UserProcess, AffinityKind, is_running, affinity_lt, affinity_eq}

abbrev pub Store : Type 0
Store = ℕ → UserProcess

abbrev pub set_affinity : Store → ℕ → AffinityKind → Store
set_affinity σ p a q = if p == q then record (σ q) { affinity = a } else σ q

pub record BinaryMutex : Type 0 where
  pub locking_process : ℕ
  pub owner_original_affinity : AffinityKind

pub is_locked : BinaryMutex → Store → Bool
is_locked x σ = not (x.locking_process == 0) && is_running (σ x.locking_process).status

pub unlock : BinaryMutex → Store → Bool × BinaryMutex × Store
unlock x σ =
    if x.locking_process == 0
    then (false, x, σ)
    else if not (affinity_eq x.owner_original_affinity AffinityKind.invalid)
    then (
      true,
      record { locking_process = 0; owner_original_affinity = AffinityKind.invalid },
      set_affinity σ x.locking_process x.owner_original_affinity,
    )
    else (true, record x { locking_process = 0 }, σ)

pub lock : BinaryMutex → Store → ℕ → Bool × BinaryMutex × Store
unfolding is_locked
lock x σ process =
    if process == 0
    then (false, x, σ)
    else if is_locked x σ && not (x.locking_process == 0)
    then (if affinity_lt (σ process).affinity (σ x.locking_process).affinity
        then (
          false,
          record x { owner_original_affinity = (σ x.locking_process).affinity },
          set_affinity σ x.locking_process (σ process).affinity,
        )
        else (false, x, σ))
    else (
      true,
      record { locking_process = process; owner_original_affinity = AffinityKind.invalid },
      σ,
    )

-- `LockAndWait`; `wait` is what the others do to the mutex and the processes while the timer runs.
unfoldable pub lock_and_wait :
    (BinaryMutex → Store → BinaryMutex × Store)
    → BinaryMutex
    → Store
    → ℕ
    → ℕ
    → Bool × BinaryMutex × Store
unfolding lock
lock_and_wait wait x σ process timer =
    if timer == 0
    then (false, x, σ)
    else if process == 0
    then (false, x, σ)
    else (let (ret, x₁, σ₁) = lock x σ process in
        if ret then (true, x₁, σ₁) else (let (x₂, σ₂) = wait x₁ σ₁ in lock x₂ σ₂ process))

-- `WaitForProcess`, after the wait.
unfoldable pub wait_for_process :
    (BinaryMutex → Store → BinaryMutex × Store) → BinaryMutex → Store → Bool
unfolding is_locked
wait_for_process wait x σ = let (x', σ') = wait x σ in not (is_locked x' σ')
