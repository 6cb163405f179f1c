-- ===== src/Hefs/Owners.antt =====
-- Tables of positions in which no position stands twice: `slots k i` is the position in cell `i` of row
-- `k`, or 0.
use krnl.Base.{ℕ, ◌≤◌, ◌<◌, ◌≡◌, ◌≢◌, ◌⊎◌, inl, inr, sym, ap₂, ◌∙◌, arith}
use krnl.Hefs.Drive.{sector_of}

-- The positions of the rows that are inside lie at the sector `low` or behind it and below `bound`, and each
-- stands in one cell.
pub record Owned (inside : ℕ → Type 0) (slots : ℕ → ℕ → ℕ) (low bound : ℕ) : Type 0 where
  pub behind : (k i : ℕ) → inside k → slots k i ≢ 0 → low ≤ sector_of (slots k i)
  pub below : (k i : ℕ) → inside k → slots k i ≢ 0 → slots k i < bound
  pub single :
      (k i k' i' : ℕ)
      → inside k
      → inside k'
      → slots k i ≢ 0
      → slots k i ≡ slots k' i'
      → (k ≡ k') × (i ≡ i')

pub cell_cases : (k row i cell : ℕ) → ((k ≡ row) × (i ≡ cell)) ⊎ ((k ≢ row) ⊎ (i ≢ cell))
cell_cases k row i cell = ground arith

-- Two tables that differ in one cell at most.
abbrev pub Differ : (ℕ → Type 0) → (ℕ → ℕ → ℕ) → (ℕ → ℕ → ℕ) → ℕ → ℕ → Type 0
Differ inside slots slots' row cell =
    (k i : ℕ) → inside k → (k ≢ row) ⊎ (i ≢ cell) → slots' k i ≡ slots k i

module _ (inside : ℕ → Type 0) (slots slots' : ℕ → ℕ → ℕ) (row cell low bound : ℕ) where
  -- The bound itself is put in a cell, and the bound moves on.
  pub Owned-take :
      (bound' : ℕ)
      → Differ inside slots slots' row cell
      → slots' row cell ≡ bound
      → low ≤ sector_of bound
      → bound < bound'
      → Owned inside slots low bound
      → Owned inside slots' low bound'
  Owned-take bound' others taken fresh more owned = record {
    behind = λ k i h there. elim (cell_cases k row i cell) [
      | inl (e, f) ↦ rw (e, f, taken) fresh
      | inr other ↦
          rw (others k i h other) (owned.behind k i h (λ z. there (others k i h other ∙ z)))
    ];
    below = λ k i h there. elim (cell_cases k row i cell) [
      | inl (e, f) ↦ rw (e, f, taken) more
      | inr other ↦
          rw (others k i h other)
            (omega (arith, more, owned.below k i h (λ z. there (others k i h other ∙ z))))
    ];
    single = λ k i k' i' h h' there same. elim (cell_cases k row i cell) [
      | inl (e, f) ↦ elim (cell_cases k' row i' cell) [
        | inl (e', f') ↦ (e ∙ sym e', f ∙ sym f')
        | inr other' ↦
            (let at_bound : slots k' i' ≡ bound =
                sym (others k' i' h' other') ∙ sym same ∙ ap₂ slots' e f ∙ taken in
              let low_enough =
                owned.below k' i' h' (λ z. there (same ∙ others k' i' h' other' ∙ z)) in
              absurd (omega (arith, at_bound, low_enough)))
      ]
      | inr other ↦ elim (cell_cases k' row i' cell) [
        | inl (e', f') ↦
            (let at_bound : slots k i ≡ bound =
                sym (others k i h other) ∙ same ∙ ap₂ slots' e' f' ∙ taken in
              let low_enough = owned.below k i h (λ z. there (others k i h other ∙ z)) in
              absurd (omega (arith, at_bound, low_enough)))
        | inr other' ↦
            owned.single k i k' i' h h' (λ z. there (others k i h other ∙ z))
              (sym (others k i h other) ∙ same ∙ others k' i' h' other')
      ]
    ];
  }

  -- A cell is cleared.
  pub Owned-clear :
      Differ inside slots slots' row cell
      → slots' row cell ≡ 0
      → Owned inside slots low bound
      → Owned inside slots' low bound
  Owned-clear others cleared owned = record {
    behind = λ k i h there. elim (cell_cases k row i cell) [
      | inl (e, f) ↦ absurd (there (ap₂ slots' e f ∙ cleared))
      | inr other ↦
          rw (others k i h other) (owned.behind k i h (λ z. there (others k i h other ∙ z)))
    ];
    below = λ k i h there. elim (cell_cases k row i cell) [
      | inl (e, f) ↦ absurd (there (ap₂ slots' e f ∙ cleared))
      | inr other ↦
          rw (others k i h other) (owned.below k i h (λ z. there (others k i h other ∙ z)))
    ];
    single = λ k i k' i' h h' there same. elim (cell_cases k row i cell) [
      | inl (e, f) ↦ absurd (there (ap₂ slots' e f ∙ cleared))
      | inr other ↦ elim (cell_cases k' row i' cell) [
        | inl (e', f') ↦ absurd (there (same ∙ ap₂ slots' e' f' ∙ cleared))
        | inr other' ↦
            owned.single k i k' i' h h' (λ z. there (others k i h other ∙ z))
              (sym (others k i h other) ∙ same ∙ others k' i' h' other')
      ]
    ];
  }
