-- ===== src/Mutex/Inheritance.antt =====
-- What the mutex does to the affinities.
use krnl.Base.{ℕ, ◌≡◌, ◌≢◌, ap, ◌∙◌, true, false, arith}
use krnl.Process.{AffinityKind, is_running, affinity_lt, affinity_eq, running}
use krnl.Mutex.{Store, set_affinity, BinaryMutex, is_locked, lock, unlock}

-- The mutex held by `p` with no boost.
pub held : ℕ → BinaryMutex
held p = record { locking_process = p; owner_original_affinity = AffinityKind.invalid }

pub free : BinaryMutex
free = held 0

-- A process that asks for a free mutex, or for one whose holder no longer runs, gets it, and its
-- release frees the mutex; no affinity changes.
pub lock-unlock :
    (x : BinaryMutex) (σ : Store) (p : ℕ)
    → p ≢ 0
    → is_locked x σ ≡ false
    → (lock x σ p ≡ (true, held p, σ)) × (unlock (held p) σ ≡ (true, free, σ))
unfolding lock unlock held free
lock-unlock x σ p n h = (ground arith, ground arith)

-- One boost: the store in which `q` has waited for `p`.
boosted :
    (σ : Store) (p q : ℕ)
    → p ≢ 0
    → q ≢ 0
    → (σ p).status ≡ running
    → affinity_lt (σ q).affinity (σ p).affinity ≡ true
    → lock (held p) σ q ≡ (
      false,
      record { locking_process = p; owner_original_affinity = (σ p).affinity },
      set_affinity σ p (σ q).affinity,
    )
unfolding lock held is_locked
boosted σ p q n k r lt = ground (arith, ap is_running r)

released :
    (σ : Store) (p : ℕ) (a b : AffinityKind)
    → p ≢ 0
    → affinity_eq a AffinityKind.invalid ≡ false
    → unlock (record { locking_process = p; owner_original_affinity = a }) (set_affinity σ p b)
      ≡ (true, free, set_affinity (set_affinity σ p b) p a)
unfolding unlock free held
released σ p a b n v = ground arith

reset :
    (σ : Store) (p r : ℕ) (b : AffinityKind)
    → set_affinity (set_affinity σ p b) p (σ p).affinity r ≡ σ r
reset σ p r b = ground (arith, ap σ)

-- A waiter of a lower affinity value boosts the holder to its own; with one such waiter the release
-- gives the holder its affinity back, and every process is as before.
pub unlock-lock_restores :
    (σ : Store) (p q : ℕ)
    → p ≢ 0
    → q ≢ 0
    → (σ p).status ≡ running
    → affinity_lt (σ q).affinity (σ p).affinity ≡ true
    → ((lock (held p) σ q).2 p).affinity ≡ (σ q).affinity
      × ((unlock (lock (held p) σ q).1 (lock (held p) σ q).2).1 ≡ free)
      × ((r : ℕ) → (unlock (lock (held p) σ q).1 (lock (held p) σ q).2).2 r ≡ σ r)
unlock-lock_restores σ p q n k r lt =
    let step = boosted σ p q n k r lt in
    let undo = released σ p (σ p).affinity (σ q).affinity n (ground arith) in
    (
      ap (λ x. (x.2 p).affinity) step ∙ ground arith,
      ap (λ x. (unlock x.1 x.2).1) step ∙ ap (λ x. x.1) undo,
      λ s. ap (λ x. (unlock x.1 x.2).2 s) step ∙ ap (λ x. x.2 s) undo ∙ reset σ p s (σ q).affinity,
    )

-- With two waiters, the second of a still lower affinity value, the first boost is taken for the
-- holder's own affinity: the release leaves the holder with the first waiter's.
unlock-lock_twice :
    (σ : Store) (p q r : ℕ)
    → p ≢ 0
    → q ≢ 0
    → r ≢ 0
    → p ≢ r
    → (σ p).status ≡ running
    → affinity_lt (σ q).affinity (σ p).affinity ≡ true
    → affinity_lt (σ r).affinity (σ q).affinity ≡ true
    → ((unlock
          (lock (lock (held p) σ q).1 (lock (held p) σ q).2 r).1
          (lock (lock (held p) σ q).1 (lock (held p) σ q).2 r).2).2
        p).affinity
      ≡ (σ q).affinity
unfolding lock unlock held is_locked
unlock-lock_twice σ p q r n k l d run lt lt' = ground (arith, ap is_running run)
