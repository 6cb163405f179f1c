-- ===== src/Ascii/Find.antt =====
-- Which place a search for a string finds.
use krnl.Base.{
  ℕ, zero, suc, ◌+◌, ◌-◌, ◌<◌, ◌≡◌, ◌≢◌, ◌⊎◌, inl, inr, refl, arith, some, subst, ltb, Bool-cases,
}
use krnl.Base.Int.{ℤ, pos, negsuc}
use krnl.Base.Memory.{Memory}
use krnl.Ascii.{string_cmp, find_from, string_in_string}
use krnl.Ascii.Text.{IsString, string_len-IsString, AgreesOn, string_cmp_iff}

-- What a search among the `n` places from `at` on says: the first that matches, or 0 if none does.
pub data Found (m : Memory) (needle needle_len : ℕ) : ℕ → ℕ → ℕ → Type 0 where
  nowhere : {at : ℕ} → Found m needle needle_len at 0 0
  here : {at n : ℕ} → AgreesOn m at needle needle_len → Found m needle needle_len at (suc n) at
  later :
      {at n found : ℕ}
      → (AgreesOn m at needle needle_len → ⊥)
      → Found m needle needle_len (at + 1) n found
      → Found m needle needle_len at (suc n) found

is_zero : (z : ℤ) → (z ≡ pos 0) ⊎ (z ≢ pos 0)
is_zero (pos zero) = inl refl
is_zero (pos (suc n)) = inr (λ e. ground arith)
is_zero (negsuc n) = inr (λ e. ground arith)

find_from-Found :
    (m : Memory) (needle needle_len at n : ℕ)
    → Found m needle needle_len at n (find_from m at needle needle_len n)
unfolding find_from
find_from-Found m needle needle_len at zero = nowhere
find_from-Found m needle needle_len at (suc n) =
    elim (is_zero (string_cmp m at needle needle_len)) [
      | inl e ↦
          subst (Found m needle needle_len at (suc n)) (ground arith)
            (here ((string_cmp_iff m at needle needle_len).0 e))
      | inr e ↦ subst (Found m needle needle_len at (suc n)) (ground arith) (
          later (λ h. e ((string_cmp_iff m at needle needle_len).1 h))
            (find_from-Found m needle needle_len (at + 1) n))
    ]

-- The search of one string in another returns the first place at which it stands whole, and 0 if
-- there is none, as there is none for a string that is longer; it always returns, given fuel above both
-- lengths.
pub string_in_string-Found :
    (m : Memory) (haystack needle hay_len needle_len fuel : ℕ)
    → haystack ≢ 0
    → needle ≢ 0
    → IsString m haystack hay_len
    → IsString m needle needle_len
    → hay_len < fuel
    → needle_len < fuel
    → (found : ℕ) × (string_in_string fuel m haystack needle ≡ some found)
      × Found m needle needle_len haystack (hay_len + 1 - needle_len) found
unfolding string_in_string
string_in_string-Found m haystack needle hay_len needle_len fuel h n hs ns hf nf =
    let hay = string_len-IsString m haystack hay_len fuel hs hf in
    let pin = string_len-IsString m needle needle_len fuel ns nf in
    elim (Bool-cases (ltb hay_len needle_len)) [
      | inl longer ↦
          (let none_left : 0 ≡ hay_len + 1 - needle_len = ground (arith, longer) in
            (
              0,
              ground (arith, hay, pin, longer),
              subst (λ places. Found m needle needle_len haystack places 0) none_left nowhere,
            ))
      | inr fits ↦
          (let places : hay_len - needle_len + 1 ≡ hay_len + 1 - needle_len =
              ground (arith, fits) in
            let found = find_from m haystack needle needle_len (hay_len - needle_len + 1) in
            (
              found,
              ground (arith, hay, pin, fits),
              subst (λ places. Found m needle needle_len haystack places found) places
                  (find_from-Found m needle needle_len haystack (hay_len - needle_len + 1)),
            ))
    ]
