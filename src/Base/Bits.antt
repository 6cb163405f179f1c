-- ===== src/Base/Bits.antt =====
-- Laws of `bit_and`, `bit_or` and `bit_xor` at variables, from the digit recursion that the native
-- operations stand for. A mask of k low bits is the remainder by `2 ^ k`.
use Prim.Native.Nat.{
  ℕ, zero, suc, ◌+◌, ◌-◌, ◌*◌, ◌/◌, ◌%◌, ◌^◌, ◌≤◌, ◌<◌, min, max, digits, bitwise, bit_and, bit_or,
  bit_xor, bit_and-bitwise, bit_or-bitwise, bit_xor-bitwise, differ,
}
use mathlib.Core.Path.{◌≡◌, refl, sym, ap, ◌∙◌}
use mathlib.Core.Bool.{Bool, true, false}
use krnl.Base.Tests.{if◌then◌else◌}
use native.Mathlib.Omega.{arith}
use native.Mathlib.Nat.{pow-suc, one-le-pow}
pub use Prim.Native.Nat.{bit_and, bit_or, bit_xor}

module _ (rest : ℕ → ℕ) (op : ℕ → ℕ → ℕ) where
  no_digits : (fuel y : ℕ) → digits rest op fuel 0 y ≡ rest y
  no_digits zero y = refl
  no_digits (suc fuel) y = refl

  -- Fuel beyond the first number makes no difference.
  digits_enough :
      (x y fuel more : ℕ)
      → (x ≤ fuel) × (x ≤ more)
      → digits rest op more x y ≡ digits rest op fuel x y
  digits_enough zero y fuel more h = no_digits more y ∙ sym (no_digits fuel y)
  digits_enough (suc x) y zero more (h, k) = absurd (omega (arith, h))
  digits_enough (suc x) y (suc fuel) zero (h, k) = absurd (omega (arith, k))
  digits_enough (suc x) y (suc fuel) (suc more) (h, k) =
      ap (λ high. high * 2 + op (suc x % 2) (y % 2))
        (digits_enough (suc x / 2) (y / 2) fuel more (omega (arith, h), omega (arith, k)))

  bitwise_low_digit :
      (x y : ℕ)
      → bitwise rest op (suc x) y ≡ bitwise rest op (suc x / 2) (y / 2) * 2 + op (suc x % 2) (y % 2)
  bitwise_low_digit x y =
      ap (λ high. high * 2 + op (suc x % 2) (y % 2))
        (digits_enough (suc x / 2) (y / 2) (suc x / 2) x (omega arith, omega arith))

differ_digits : (x y : ℕ) → x < 2 → y < 2 → differ x y ≡ (x + y) % 2
differ_digits zero zero p q = refl
differ_digits zero (suc zero) p q = refl
differ_digits (suc zero) zero p q = refl
differ_digits (suc zero) (suc zero) p q = refl
differ_digits zero (suc (suc y)) p q = absurd (omega arith)
differ_digits (suc zero) (suc (suc y)) p q = absurd (omega arith)
differ_digits (suc (suc x)) y p q = absurd (omega arith)

pub bit_xor_step : (a b : ℕ) → bit_xor a b ≡ bit_xor (a / 2) (b / 2) * 2 + (a % 2 + b % 2) % 2
bit_xor_step zero b = simp bit_xor-bitwise (omega arith)
bit_xor_step (suc a) b = simp bit_xor-bitwise (
    omega (
      arith,
      bitwise_low_digit (λ y. y) differ a b,
      differ_digits (suc a % 2) (b % 2) (omega arith) (omega arith),
    ))

pub bit_or_step : (x y : ℕ) → bit_or x y ≡ bit_or (x / 2) (y / 2) * 2 + max (x % 2) (y % 2)
bit_or_step zero y = simp bit_or-bitwise (omega arith)
bit_or_step (suc x) y = simp bit_or-bitwise (bitwise_low_digit (λ high. high) max x y)

pub bit_and_step : (x y : ℕ) → bit_and x y ≡ min (x % 2) (y % 2) + 2 * bit_and (x / 2) (y / 2)
bit_and_step zero y = simp bit_and-bitwise (omega arith)
bit_and_step (suc x) y = simp bit_and-bitwise (omega (arith, bitwise_low_digit (λ high. 0) min x y))

pub bit_xor-zero-left : (b : ℕ) → bit_xor 0 b ≡ b
bit_xor-zero-left b = simp bit_xor-bitwise

xor_comm_below : (n a b : ℕ) → a ≤ n → b ≤ n → bit_xor a b ≡ bit_xor b a
xor_comm_below zero zero zero p q = refl
xor_comm_below zero (suc a) b p q = absurd (omega arith)
xor_comm_below zero zero (suc b) p q = absurd (omega arith)
xor_comm_below (suc n) a b p q = omega (
  arith,
  bit_xor_step a b,
  bit_xor_step b a,
  xor_comm_below n (a / 2) (b / 2) (omega arith) (omega arith),
)

pub bit_xor_comm : (a b : ℕ) → bit_xor a b ≡ bit_xor b a
bit_xor_comm a b = xor_comm_below (a + b) a b (omega arith) (omega arith)

pub bit_xor-zero : (a : ℕ) → bit_xor a 0 ≡ a
bit_xor-zero a = rw (bit_xor_comm a 0) (bit_xor-zero-left a)

-- The digits of an exclusive or.
pub bit_xor-half : (a b : ℕ) → bit_xor a b / 2 ≡ bit_xor (a / 2) (b / 2)
bit_xor-half a b = omega (arith, bit_xor_step a b)

pub bit_xor-low : (a b : ℕ) → bit_xor a b % 2 ≡ (a % 2 + b % 2) % 2
bit_xor-low a b = omega (arith, bit_xor_step a b)

xor_assoc_below :
    (n a b c : ℕ) → a ≤ n → b ≤ n → c ≤ n → bit_xor (bit_xor a b) c ≡ bit_xor a (bit_xor b c)
xor_assoc_below zero zero zero zero p q r = refl
xor_assoc_below zero (suc a) b c p q r = absurd (omega arith)
xor_assoc_below zero zero (suc b) c p q r = absurd (omega arith)
xor_assoc_below zero zero zero (suc c) p q r = absurd (omega arith)
xor_assoc_below (suc n) a b c p q r =
    rw
      (
        bit_xor_step (bit_xor a b) c,
        bit_xor_step a (bit_xor b c),
        bit_xor-half a b,
        bit_xor-half b c,
        bit_xor-low a b,
        bit_xor-low b c,
      )
      (omega (
        arith,
        xor_assoc_below n (a / 2) (b / 2) (c / 2) (omega arith) (omega arith) (omega arith),
      ))

pub bit_xor_assoc : (a b c : ℕ) → bit_xor (bit_xor a b) c ≡ bit_xor a (bit_xor b c)
bit_xor_assoc a b c = xor_assoc_below (a + b + c) a b c (omega arith) (omega arith) (omega arith)

pub bit_xor-lt : (k a b : ℕ) → a < 2 ^ k → b < 2 ^ k → bit_xor a b < 2 ^ k
bit_xor-lt zero a b p q =
    let ea : a ≡ 0 = omega arith in let eb : b ≡ 0 = omega arith in rw (ea, eb) (omega arith)
bit_xor-lt (suc k) a b p q = omega (
  arith,
  bit_xor_step a b,
  pow-suc 2 k,
  bit_xor-lt k (a / 2) (b / 2) (omega (arith, pow-suc 2 k)) (omega (arith, pow-suc 2 k)),
)

bit_and-zero_below : (n a : ℕ) → a ≤ n → bit_and a 0 ≡ 0
bit_and-zero_below fuel zero h = refl
bit_and-zero_below zero (suc a) h = absurd (omega arith)
bit_and-zero_below (suc fuel) (suc a) h =
    let halved = bit_and-zero_below fuel (suc a / 2) (omega arith) in
    omega (arith, bit_and_step (suc a) 0, halved)

pub bit_and-lt : (k a b : ℕ) → b < 2 ^ k → bit_and a b < 2 ^ k
bit_and-lt zero a b h =
    let none_set : b ≡ 0 = omega arith in
    rw none_set (omega (arith, bit_and-zero_below a a (omega arith)))
bit_and-lt (suc k) a b h = omega (
  arith,
  bit_and_step a b,
  pow-suc 2 k,
  bit_and-lt k (a / 2) (b / 2) (omega (arith, pow-suc 2 k)),
)

pub two_pow_suc : (q k : ℕ) → q * 2 ^ suc k ≡ 2 * (q * 2 ^ k)
two_pow_suc q k = omega (arith, ap (λ (t : ℕ). q * t) (pow-suc 2 k))

and_low_part : (k q r : ℕ) → r < 2 ^ k → bit_and (q * 2 ^ k + r) (2 ^ k - 1) ≡ r
and_low_part zero q r fits =
    omega (arith, bit_and-zero_below (q * 2 ^ 0 + r) (q * 2 ^ 0 + r) (omega arith))
and_low_part (suc k) q r fits = ground (
  arith,
  bit_and_step (q * 2 ^ suc k + r) (2 ^ suc k - 1),
  two_pow_suc q k,
  pow-suc 2 k,
  one-le-pow k 2,
  and_low_part k q (r / 2),
)

pub bit_and_mask : (k a : ℕ) → bit_and a (2 ^ k - 1) ≡ a % 2 ^ k
bit_and_mask k a = ground (arith, one-le-pow k 2, and_low_part k (a / 2 ^ k) (a % 2 ^ k))

pub bit_xor-sum : (k q r : ℕ) → r < 2 ^ k → bit_xor (q * 2 ^ k) r ≡ q * 2 ^ k + r
bit_xor-sum zero q r fits =
    let none_left : r ≡ 0 = omega arith in rw (none_left, bit_xor-zero) (omega arith)
bit_xor-sum (suc k) q r fits =
    ground
      (arith, bit_xor_step (q * 2 ^ suc k) r, two_pow_suc q k, pow-suc 2 k, bit_xor-sum k q (r / 2))

-- An exclusive or of two numbers in two fields is taken field by field.
pub bit_xor_fields :
    (k q r p s : ℕ)
    → r < 2 ^ k
    → s < 2 ^ k
    → bit_xor (q * 2 ^ k + r) (p * 2 ^ k + s) ≡ bit_xor q p * 2 ^ k + bit_xor r s
bit_xor_fields zero q r p s fits fits' =
    let r_zero : r ≡ 0 = omega arith in
    let s_zero : s ≡ 0 = omega arith in
    let q_only : q * 2 ^ 0 + 0 ≡ q = omega arith in
    let p_only : p * 2 ^ 0 + 0 ≡ p = omega arith in
    rw (r_zero, s_zero, q_only, p_only, bit_xor-zero 0) (omega arith)
bit_xor_fields (suc k) q r p s fits fits' = ground (
  arith,
  bit_xor_step (q * 2 ^ suc k + r) (p * 2 ^ suc k + s),
  bit_xor_step r s,
  two_pow_suc q k,
  two_pow_suc p k,
  two_pow_suc (bit_xor q p) k,
  pow-suc 2 k,
  bit_xor_fields k q (r / 2) p (s / 2),
)

-- Over a small range, a test is checked at every value by evaluation.
unfoldable pub all_below : ℕ → (ℕ → Bool) → Bool
all_below zero test = true
all_below (suc limit) test = if all_below limit test then test limit else false

pub all_below_sound :
    (test : ℕ → Bool) (limit value : ℕ)
    → value < limit
    → all_below limit test ≡ true
    → test value ≡ true
unfolding all_below
all_below_sound test zero value below passed = absurd (omega arith)
all_below_sound test (suc limit) value below passed =
    ground (arith, all_below_sound test limit value)
