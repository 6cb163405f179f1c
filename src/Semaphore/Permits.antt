-- ===== src/Semaphore/Permits.antt =====
-- Which waits on a semaphore succeed.
use krnl.Base.{ℕ, ◌+◌, ◌<◌, ◌≡◌, ◌≢◌, ◌↔◌, Bool, true, false, arith}
use krnl.Semaphore.{
  SemaphoreArr, error_invalid_data, error_success, sem_is_valid, sem_acquire, sem_wait,
}

-- A semaphore that was just acquired has a count of 0: every wait on it, by its owner or another, with
-- any timeout and condition, is refused as invalid and leaves it.
wait-acquire_refused :
    (sem sem' : SemaphoreArr) (err owner waiter timeout : ℕ) (condition ret condition' : Bool)
    → owner ≢ 0
    → sem_wait (sem_acquire sem err owner).2 sem' waiter timeout condition ret condition'
      ≡ (false, error_invalid_data, (sem_acquire sem err owner).2)
unfolding sem_wait sem_acquire sem_is_valid
wait-acquire_refused sem sem' err owner waiter timeout condition ret condition' h = ground arith

-- With no condition to wait for, a wait succeeds exactly if the waiter is the owner, there is a permit
-- and the timeout is not 0; it then takes one permit, and a wait that fails takes none.
pub sem_wait_iff :
    (sem sem' : SemaphoreArr) (owner timeout : ℕ) (ret condition' : Bool)
    → (((sem_wait sem sem' owner timeout false ret condition').0 ≡ true)
        ↔ ((sem.owner ≡ owner) × (0 < sem.count) × (timeout ≢ 0)))
      × ((sem_wait sem sem' owner timeout false ret condition').0 ≡ true
          → ((sem_wait sem sem' owner timeout false ret condition').2.count + 1 ≡ sem.count)
            × ((sem_wait sem sem' owner timeout false ret condition').2.owner ≡ sem.owner)
            × ((sem_wait sem sem' owner timeout false ret condition').1 ≡ error_success))
      × ((sem_wait sem sem' owner timeout false ret condition').0 ≡ false
          → (sem_wait sem sem' owner timeout false ret condition').2 ≡ sem)
unfolding sem_wait sem_is_valid
sem_wait_iff sem sem' owner timeout ret condition' = (
  (λ e. (ground arith, ground arith, λ f. ground arith), λ (e, f, g). ground arith),
  λ e. (ground arith, ground arith, ground arith),
  λ e. ground arith,
)
