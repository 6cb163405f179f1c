-- ===== src/Semaphore.antt =====
-- The semaphores of private/minkernel/KernelKit/Semaphore.h: two 64-bit words, and the global error
-- code, which a call sets or leaves.
pub mod Permits
use krnl.Base.{ℕ, ◌-◌, Bool, true, false, not, ◌&&◌, ltb, ◌==◌, if◌then◌else◌}

pub record SemaphoreArr : Type 0 where
  pub owner : ℕ
  pub count : ℕ

abbrev pub error_success : ℕ
error_success = 0

abbrev pub error_invalid_data : ℕ
error_invalid_data = 56

abbrev pub error_timeout : ℕ
error_timeout = 68

abbrev pub error_unavailable : ℕ
error_unavailable = 70

-- What a call returns: its answer, the error code and the semaphore it leaves.
abbrev pub Answer : Type 0
Answer = Bool × ℕ × SemaphoreArr

pub sem_is_valid : SemaphoreArr → ℕ → Bool
sem_is_valid sem owner = (sem.owner == owner) && ltb 0 sem.count

unfoldable pub sem_release : SemaphoreArr → Bool × SemaphoreArr
sem_release sem = (true, record sem { owner = 0; count = 0 })

pub sem_acquire : SemaphoreArr → ℕ → ℕ → Answer
sem_acquire sem err owner =
    if owner == 0
    then (false, error_invalid_data, sem)
    else (true, err, record sem { owner = owner; count = 0 })

-- The permit that a wait takes.
abbrev take : SemaphoreArr → Answer
take sem =
    if sem.count == 0
    then (false, error_unavailable, sem)
    else (true, error_success, record sem { count = sem.count - 1 })

-- `rtl_sem_wait`; `condition` and `condition'` are the condition before the timer's wait and after,
-- `ret` what the wait returns, and `sem'` the semaphore that others leave meanwhile.
pub sem_wait : SemaphoreArr → SemaphoreArr → ℕ → ℕ → Bool → Bool → Bool → Answer
unfolding sem_is_valid
sem_wait sem sem' owner timeout condition ret condition' =
    if not (sem_is_valid sem owner)
    then (false, error_invalid_data, sem)
    else if timeout == 0
    then (false, error_timeout, sem)
    else if not condition
    then take sem
    else if ret
    then (if not condition' then take sem' else (false, error_timeout, sem'))
    else (false, error_timeout, sem')
