-- ===== src/Ascii/Reverse.antt =====
-- The loop of `rt_to_string` that turns the digits round.
use krnl.Base.{
  ℕ, zero, suc, ◌+◌, ◌-◌, ◌/◌, ◌≤◌, ◌<◌, ◌≡◌, ◌⊎◌, inl, inr, refl, ap, ◌∙◌, ◌||◌, arith, ltb, leb,
  if◌then◌else◌,
}
use krnl.Base.Memory.{Memory, store8}
use krnl.Ascii.{swap_digits}

pub swap_digits_outside :
    (n : ℕ) (m : Memory) (str i j b : ℕ)
    → j + n ≤ i / 2
    → (b < str + j) ⊎ (str + (i - j) ≤ b)
    → swap_digits n m str i j b ≡ m b
unfolding swap_digits
swap_digits_outside zero m str i j b h o = refl
swap_digits_outside (suc n) m str i j b h o =
    swap_digits_outside n _ str i (j + 1) b (omega arith) (omega arith) ∙ ground arith

-- The swaps reverse the bytes that they reach.
swap_digits-lem :
    (n : ℕ) (m : Memory) (str i j k : ℕ)
    → j + n ≤ i / 2
    → j ≤ k
    → k < i - j
    → swap_digits n m str i j (str + k)
      ≡ (if ltb k (j + n) || leb (i - j - n) k then m (str + (i - 1 - k)) else m (str + k))
unfolding swap_digits
swap_digits-lem zero m str i j k h lo hi = ground arith
swap_digits-lem (suc n) m str i j k h lo hi = elim (place k j (i - j - 1) lo (omega arith)) [
  | inl e ↦
      swap_digits_outside n _ str i (j + 1) (str + k) (omega arith) (inl (omega arith))
      ∙ ground arith
  | inr (inl e) ↦
      swap_digits_outside n _ str i (j + 1) (str + k) (omega arith) (inr (omega arith))
      ∙ ground arith
  | inr (inr (e, f)) ↦
      swap_digits-lem n _ str i (j + 1) k (omega arith) (omega arith) (omega arith) ∙ ground arith
]
  where
    place :
        (k low high : ℕ) → low ≤ k → k ≤ high → (k ≡ low) ⊎ ((k ≡ high) ⊎ ((low < k) × (k < high)))
    place k low high e f = omega arith

-- The digits in their place after both loops.
pub reversed :
    (w : Memory) (str n k : ℕ)
    → k < n
    → swap_digits (n / 2) (store8 w (str + n) 0) str n 0 (str + k) ≡ w (str + (n - 1 - k))
reversed w str n k h =
    swap_digits-lem (n / 2) (store8 w (str + n) 0) str n 0 k (omega arith) (omega arith)
      (omega arith)
    ∙ elim (middle n k h) [
      | inl e ↦ ground arith
      | inr (e, f) ↦ ground (arith, ap (λ x. w (str + x)) f)
    ]
  where
    middle :
        (n k : ℕ)
        → k < n
        → ((k < n / 2) ⊎ (n - n / 2 ≤ k)) ⊎ (((n / 2 ≤ k) × (k < n - n / 2)) × (k ≡ n - 1 - k))
    middle n k h = omega arith
