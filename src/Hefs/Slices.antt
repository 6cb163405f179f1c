-- ===== src/Hefs/Slices.antt =====
-- The search of a directory's slices.
use krnl.Base.{
  ℕ, zero, suc, ◌<◌, ◌≡◌, ◌≢◌, refl, ap, sym, Bool, true, false, List, [], ◌∷◌, none, some, arith,
  Bool-cases, inl, inr, Option-cases, length, get_or, set,
}
use krnl.Hefs.Scan.{first_index}

module _ (test : ℕ → Bool) where
  first_index_here : (v : ℕ) (vs : List ℕ) → test v ≡ true → first_index test (v ∷ vs) ≡ some 0
  unfolding first_index
  first_index_here v vs h = rw (first_index, h) refl

  first_index_later :
      (v : ℕ) (vs : List ℕ) (i : ℕ)
      → test v ≡ false
      → first_index test vs ≡ some i
      → first_index test (v ∷ vs) ≡ some (suc i)
  unfolding first_index
  first_index_later v vs i h e = rw (first_index, h, e) refl

  first_index_misses :
      (v : ℕ) (vs : List ℕ)
      → test v ≡ false
      → first_index test vs ≡ none
      → first_index test (v ∷ vs) ≡ none
  unfolding first_index
  first_index_misses v vs h e = rw (first_index, h, e) refl

  pub first_index_holds :
      (vs : List ℕ) (i : ℕ)
      → first_index test vs ≡ some i
      → (test (get_or vs i 0) ≡ true) × (i < length vs)
  unfolding first_index
  first_index_holds [] i e = absurd (cc e)
  first_index_holds (v ∷ vs) i e = elim (Bool-cases (test v)) [
    | inl h ↦ (let at_zero : i ≡ 0 = cc (first_index_here v vs h, e) in rw at_zero (h, omega arith))
    | inr h ↦ elim (Option-cases (first_index test vs)) [
      | inl gone ↦ absurd (cc (first_index_misses v vs h gone, e))
      | inr (j, there) ↦
          (let at_suc : i ≡ suc j = cc (first_index_later v vs j h there, e) in
            let rest = first_index_holds vs j there in rw at_suc (rest.0, omega (arith, rest.1)))
    ]
  ]

  pub first_index_exists :
      (vs : List ℕ) (i : ℕ)
      → i < length vs
      → test (get_or vs i 0) ≡ true
      → (j : ℕ) × (first_index test vs ≡ some j)
  first_index_exists [] i h e = absurd (omega arith)
  first_index_exists (v ∷ vs) zero h e = (0, first_index_here v vs e)
  first_index_exists (v ∷ vs) (suc i) h e = elim (Bool-cases (test v)) [
    | inl t ↦ (0, first_index_here v vs t)
    | inr t ↦
        (let (j, there) = first_index_exists vs i (omega arith) e in
          (suc j, first_index_later v vs j t there))
  ]

pub get_or-set_self : (vs : List ℕ) (i v : ℕ) → i < length vs → get_or (set vs i v) i 0 ≡ v
get_or-set_self [] i v h = absurd (omega arith)
get_or-set_self (x ∷ vs) zero v h = refl
get_or-set_self (x ∷ vs) (suc i) v h = get_or-set_self vs i v (omega arith)

pub get_or-set_ne : (vs : List ℕ) (i j v : ℕ) → j ≢ i → get_or (set vs i v) j 0 ≡ get_or vs j 0
get_or-set_ne [] i j v h = refl
get_or-set_ne (x ∷ vs) zero zero v h = absurd (h refl)
get_or-set_ne (x ∷ vs) zero (suc j) v h = refl
get_or-set_ne (x ∷ vs) (suc i) zero v h = refl
get_or-set_ne (x ∷ vs) (suc i) (suc j) v h = get_or-set_ne vs i j v (λ e. h (ap suc e))

-- A slice that is set and set back is as it was.
pub set-set_back : (vs : List ℕ) (i v : ℕ) → get_or vs i 0 ≡ 0 → set (set vs i v) i 0 ≡ vs
set-set_back [] i v h = refl
set-set_back (x ∷ vs) zero v h = ap (λ y. y ∷ vs) (sym h)
set-set_back (x ∷ vs) (suc i) v h = ap (λ ys. x ∷ ys) (set-set_back vs i v h)
