-- ===== src/Cpu/Search.antt =====
-- Which hardware thread `UserProcessHelper::Switch` finds.
use krnl.Base.{
  ℕ, ◌+◌, ◌<◌, ◌≡◌, ◌↔◌, ◌≢◌, ◌⊎◌, ◌==◌, ==→eq, ==→ne, inl, inr, refl, subst₂, ap, Bool, Bool-cases,
  true, false, not, ◌||◌, List, [], ◌∷◌, none, arith, ltb, length, get_elem?,
}
use krnl.Cpu.{
  HardwareThread, ThreadKind, invalid, system_reserved, standard, real_time, boot, Cpus, is_skipped,
  thread_switch, switch_loop, helper_switch, array_empty, has_threads, subscript, fake,
  out_of_bounds,
}

get_elem?-end : (ts : List HardwareThread) → get_elem? ts (length ts) ≡ none
get_elem?-end [] = refl
get_elem?-end (t ∷ ts) = get_elem?-end ts

is_empty : (ts : List HardwareThread) → not (ltb 0 (length ts)) ≡ true → ts ≡ []
is_empty [] h = refl
is_empty (t ∷ ts) h = ground arith

-- The list's own subscript is checked against the size and not the last index: the one just behind
-- the list is outside the array, and those further on give the null thread. The test for threads fails whenever there is one.
pub subscript_lem :
    (c : Cpus)
    → ((subscript c (length c.threads)).0 ≡ out_of_bounds (length c.threads))
      × ((i : ℕ) → length c.threads < i → subscript c i ≡ (fake, c))
      × ((has_threads c ≡ true) ↔ (c.threads ≡ []))
unfolding subscript has_threads array_empty
subscript_lem c = (
  ground (arith, get_elem?-end c.threads),
  λ i h. ground arith,
  (λ e. is_empty c.threads e, λ e. ap (λ ts. not (ltb 0 (length ts))) e),
)

-- A thread that the search passes over.
pub Passed : HardwareThread → Type 0
Passed t = (t.kind ≡ invalid) ⊎ ((t.kind ≡ boot) ⊎ (t.busy ≡ true))

-- The threads all pass a task by.
pub AllPassed : List HardwareThread → Type 0
AllPassed [] = Unit
AllPassed (t ∷ ts) = Passed t × AllPassed ts

is_skipped-cases :
    (kind : ThreadKind)
    → ((is_skipped kind ≡ true) × ((kind ≡ invalid) ⊎ (kind ≡ boot)))
      ⊎ ((is_skipped kind ≡ false) × (kind ≢ invalid) × (kind ≢ boot))
is_skipped-cases invalid = inl (refl, inl refl)
is_skipped-cases boot = inl (refl, inr refl)
is_skipped-cases system_reserved = inr (refl, λ e. ground arith, λ e. ground arith)
is_skipped-cases standard = inr (refl, λ e. ground arith, λ e. ground arith)
is_skipped-cases real_time = inr (refl, λ e. ground arith, λ e. ground arith)

-- What the loop sees of a thread.
data Look (t : HardwareThread) : Type 0 where
  past : Passed t → is_skipped t.kind || t.busy ≡ true → Look t
  fit : (Passed t → ⊥) → is_skipped t.kind ≡ false → t.busy ≡ false → Look t

look : (t : HardwareThread) → Look t
unfolding Passed
look t = elim (is_skipped-cases t.kind) [
  | inl (skip, inl e) ↦ past (inl e) (ground (arith, skip))
  | inl (skip, inr e) ↦ past (inr (inl e)) (ground (arith, skip))
  | inr (fits, no_invalid, no_boot) ↦ elim (Bool-cases t.busy) [
    | inl busy ↦ past (inr (inr busy)) (ground (arith, busy))
    | inr idle ↦
        fit
          (λ h. elim h [
            | inl e ↦ no_invalid e
            | inr (inl e) ↦ no_boot e
            | inr (inr e) ↦ ground (arith, e, idle)
          ])
          fits idle
  ]
]

module _ (check_task : ℕ → Bool) (register_task : ℕ → ℕ → Bool) (frame : ℕ) where
  -- A search over a list of threads: what it says, and the list it leaves. A thread that is invalid, a
  -- boot thread or busy is passed over. Any other is marked busy; if the task checks out it gets the
  -- frame and is registered, and the search ends with the first that the platform registers.
  pub data Search (p_time : ℕ) : List HardwareThread → Bool → List HardwareThread → Type 0 where
    exhausted : Search p_time [] false []
    passed :
        {t : HardwareThread} {ts us : List HardwareThread} {done : Bool}
        → Passed t
        → Search p_time ts done us
        → Search p_time (t ∷ ts) done (t ∷ us)
    unchecked :
        {t : HardwareThread} {ts us : List HardwareThread} {done : Bool}
        → (Passed t → ⊥)
        → (frame ≡ 0) ⊎ (check_task frame ≡ false)
        → Search p_time ts done us
        → Search p_time (t ∷ ts) done (record t { busy = true } ∷ us)
    unregistered :
        {t : HardwareThread} {ts us : List HardwareThread} {done : Bool}
        → (Passed t → ⊥)
        → frame ≢ 0
        → check_task frame ≡ true
        → register_task frame t.id ≡ false
        → Search p_time ts done us
        → Search p_time (t ∷ ts) done (record t { busy = true; stack = frame } ∷ us)
    found :
        {t : HardwareThread} {ts : List HardwareThread}
        → (Passed t → ⊥)
        → frame ≢ 0
        → check_task frame ≡ true
        → register_task frame t.id ≡ true
        → Search p_time
            (t ∷ ts)
            true
            (record t { busy = true; stack = frame; p_time = p_time } ∷ ts)

  loop-Search :
      (p_time index last : ℕ) (ts : List HardwareThread)
      → Search p_time ts
          (switch_loop check_task register_task frame p_time index last ts).0
          (switch_loop check_task register_task frame p_time index last ts).1
  unfolding switch_loop thread_switch
  loop-Search p_time index last [] = exhausted
  loop-Search p_time index last (t ∷ ts) =
      let rest = loop-Search p_time (index + 1) index ts in
      elim (look t) [
        | past why skip ↦
            subst₂ (Search p_time (t ∷ ts)) (ground (arith, skip)) (ground (arith, skip))
              (passed why rest)
        | fit free kind idle ↦ elim (Bool-cases (frame == 0)) [
          | inl none_there ↦
              subst₂ (Search p_time (t ∷ ts)) (ground (arith, kind, idle, none_there))
                (ground (arith, kind, idle, none_there))
                (unchecked free (inl (==→eq frame 0 none_there)) rest)
          | inr there ↦ elim (Bool-cases (check_task frame)) [
            | inr bad ↦
                subst₂ (Search p_time (t ∷ ts)) (ground (arith, kind, idle, there, bad))
                  (ground (arith, kind, idle, there, bad)) (unchecked free (inr bad) rest)
            | inl good ↦ elim (Bool-cases (register_task frame t.id)) [
              | inr no_room ↦
                  subst₂ (Search p_time (t ∷ ts)) (ground (arith, kind, idle, there, good, no_room))
                    (ground (arith, kind, idle, there, good, no_room))
                    (unregistered free (==→ne frame 0 there) good no_room rest)
              | inl started ↦
                  subst₂ (Search p_time (t ∷ ts)) (ground (arith, kind, idle, there, good, started))
                    (ground (arith, kind, idle, there, good, started))
                    (found free (==→ne frame 0 there) good started)
            ]
          ]
        ]
      ]

  Search-AllPassed :
      {p_time : ℕ} {ts us : List HardwareThread} {done : Bool}
      → Search p_time ts done us
      → done ≡ false
      → AllPassed us
  unfolding AllPassed Passed
  Search-AllPassed exhausted e = tt
  Search-AllPassed (found _ _ _ _) e = cc
  Search-AllPassed (passed why rest) e = (why, Search-AllPassed rest e)
  Search-AllPassed (unchecked _ _ rest) e = (inr (inr refl), Search-AllPassed rest e)
  Search-AllPassed (unregistered _ _ _ _ rest) e = (inr (inr refl), Search-AllPassed rest e)

loop-AllPassed :
    (check_task : ℕ → Bool) (register_task : ℕ → ℕ → Bool) (frame p_time index last : ℕ)
    (ts : List HardwareThread)
    → AllPassed ts
    → (switch_loop check_task register_task frame p_time index last ts).0 ≡ false
unfolding switch_loop AllPassed
loop-AllPassed check_task register_task frame p_time index last [] h = refl
loop-AllPassed check_task register_task frame p_time index last (t ∷ ts) (h, hs) =
    let rest = loop-AllPassed check_task register_task frame p_time (index + 1) index ts hs in
    elim (look t) [
      | past why skip ↦ ground (arith, skip, rest)
      | fit free kind idle ↦ absurd (free h)
    ]

-- A thread on which the task could not start is left busy, in spite of the comment that promises a
-- rollback: after one search in vain every further one is in vain, for any task, time and platform.
helper_switch_exhausts :
    (check_task check_task' : ℕ → Bool) (register_task register_task' : ℕ → ℕ → Bool)
    (frame frame' p_time p_time' : ℕ) (c : Cpus)
    → (helper_switch check_task register_task c frame p_time).0 ≡ false
    → (helper_switch check_task' register_task'
        (helper_switch check_task register_task c frame p_time).1
        frame'
        p_time').0
      ≡ false
unfolding helper_switch
helper_switch_exhausts check_task check_task' register_task register_task' frame frame' p_time
      p_time' c h =
    loop-AllPassed check_task' register_task' frame' p_time' 0 _ _ (
      Search-AllPassed check_task register_task frame
        (loop-Search check_task register_task frame p_time 0 c.current_idx c.threads) h)
