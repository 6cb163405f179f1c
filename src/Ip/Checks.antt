-- ===== src/Ip/Checks.antt =====
-- The comparisons of addresses and the check of their text.
use krnl.Base.{
  Bool-cases, ℕ, zero, suc, ◌+◌, ◌≤◌, ◌<◌, ◌≡◌, inl, inr, ◌↔◌, refl, subst, ap₂, Bool, true, false,
  not, ◌&&◌, List, [], ◌∷◌, Option-cases, some, arith, ◌==◌, length,
}
use krnl.Base.Memory.{Memory}
use krnl.Ascii.{char}
use krnl.Ascii.Text.{IsString, string_len-IsString}
use krnl.Ip.{ip_eq, ip_ne, check_loop, ip_check_version4}

ip_eq→eq : (xs ys : List ℕ) → length xs ≡ length ys → ip_eq xs ys ≡ true → xs ≡ ys
unfolding ip_eq
ip_eq→eq [] [] h e = refl
ip_eq→eq [] (y ∷ ys) h e = absurd (omega arith)
ip_eq→eq (x ∷ xs) [] h e = absurd (omega arith)
ip_eq→eq (x ∷ xs) (y ∷ ys) h e =
    ap₂ (λ z zs. z ∷ zs) (ground arith) (ip_eq→eq xs ys (omega arith) (ground arith))

ip_eq_self : (xs : List ℕ) → ip_eq xs xs ≡ true
unfolding ip_eq
ip_eq_self [] = refl
ip_eq_self (x ∷ xs) = ground (arith, ip_eq_self xs)

both_false : (x y : ℕ) (xs ys : List ℕ) → x ≡ y → ip_ne (x ∷ xs) (y ∷ ys) ≡ false
unfolding ip_ne
both_false x y xs ys e = ground arith

-- Addresses of one length are equal exactly if all their bytes are; the test for difference is
-- stronger than the negation: it also refuses addresses that agree in their first byte only.
pub ip_eq_iff :
    (xs ys : List ℕ)
    → length xs ≡ length ys
    → ((ip_eq xs ys ≡ true) ↔ (xs ≡ ys)) × ((b : ℕ) → (ip_ne (b ∷ xs) (b ∷ ys) ≡ false))
ip_eq_iff xs ys h = (
  (ip_eq→eq xs ys h, λ e. subst (λ zs. ip_eq xs zs ≡ true) e (ip_eq_self xs)),
  λ b. both_false b b xs ys refl,
)

-- The digits that the check lets through, and its dots.
pub data Dotted (m : Memory) : ℕ → ℕ → ℕ → Type 0 where
  finished : {p : ℕ} → Dotted m p 0 0
  dot : {p n dots : ℕ} → char m p ≡ 46 → Dotted m (p + 1) n dots → Dotted m p (suc n) (suc dots)
  low_digit :
      {p n dots : ℕ}
      → 48 ≤ char m p
      → char m p ≤ 53
      → Dotted m (p + 1) n dots
      → Dotted m p (suc n) dots

check_loop-Dotted :
    (m : Memory) (p c d n e : ℕ)
    → check_loop m p c d n ≡ some e
    → (k : ℕ) × (e ≡ d + k) × Dotted m p n k
unfolding check_loop
check_loop-Dotted m p c d zero e h = (0, ground arith, finished)
check_loop-Dotted m p c d (suc n) e h = elim (Bool-cases (char m p == 46)) [
  | inl is_dot ↦
      (let (k, f, rest) = check_loop-Dotted m (p + 1) 0 (d + 1) n e (ground arith) in
        (suc k, omega arith, dot (ground arith) rest))
  | inr other ↦
      (let (k, f, rest) = check_loop-Dotted m (p + 1) (c + 1) d n e (ground arith) in
        (k, f, low_digit (ground arith) (ground arith) rest))
]

-- The check of a text always answers, and accepts only a text of exactly three dots among digits from
-- 0 to 5: an address with a digit above 5 is refused.
pub ip_check_version4-Dotted :
    (m : Memory) (ip n fuel : ℕ)
    → IsString m ip n
    → n < fuel
    → (answer : Bool) × (ip_check_version4 fuel m ip ≡ some answer)
      × (answer ≡ true → Dotted m ip n 3)
unfolding ip_check_version4
ip_check_version4-Dotted m ip n fuel s h =
    let found = string_len-IsString m ip n fuel s h in
    elim (Option-cases (check_loop m ip 0 0 n)) [
      | inl stop ↦ (false, ground (arith, found), λ e. ground arith)
      | inr (d, ends) ↦
          (let (k, same, dotted) = check_loop-Dotted m ip 0 0 n d ends in
            (
              not (ip == 0) && (d == 3),
              ground (arith, found),
              λ e. subst (Dotted m ip n) (ground arith) dotted,
            ))
    ]
