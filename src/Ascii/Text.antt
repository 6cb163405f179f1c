-- ===== src/Ascii/Text.antt =====
-- Strings that end in a zero byte.
use krnl.Base.{
  ℕ, zero, suc, ◌+◌, ◌≤◌, ◌<◌, ◌≡◌, ◌≢◌, ◌⊎◌, ◌↔◌, inl, inr, refl, ap, ◌∙◌, arith, ltb,
  if◌then◌else◌, some,
}
use krnl.Base.Int.{pos}
use krnl.Base.Memory.{Memory}
use krnl.Ascii.{char, shifted, minus, string_cmp, string_len, string_len_max}

-- The string at `p` has `n` characters before its zero byte.
pub record IsString (m : Memory) (p n : ℕ) : Type 0 where
  pub filled : (i : ℕ) → i < n → char m (p + i) ≢ 0
  pub ends : char m (p + n) ≡ 0

string_len_loop :
    (m : Memory) (p total n k : ℕ)
    → IsString m p total
    → k + n ≡ total
    → (fuel : ℕ) → n < fuel
    → string_len fuel m p k ≡ some total
unfolding string_len
string_len_loop m p total n k s e zero h = absurd (omega arith)
string_len_loop m p total zero k s e (suc fuel) h =
    ground (arith, s.ends, ap (λ i. char m (p + i)) e)
string_len_loop m p total (suc n) k s e (suc fuel) h = ground (
  arith,
  s.filled k (omega arith),
  string_len_loop m p total n (k + 1) s (omega arith) fuel (omega arith),
)

-- The length of a string is found as soon as the fuel exceeds it.
pub string_len-IsString :
    (m : Memory) (p n fuel : ℕ) → IsString m p n → n < fuel → string_len fuel m p 0 ≡ some n
string_len-IsString m p n fuel s h = string_len_loop m p n n 0 s (omega arith) fuel h

-- Two blocks of `n` bytes agree.
pub AgreesOn : Memory → ℕ → ℕ → ℕ → Type 0
AgreesOn m a b n = (c d : ℕ) → a ≤ c → c < a + n → c + b ≡ d + a → char m c ≡ char m d

AgreesOn-zero : (m : Memory) (a b : ℕ) → AgreesOn m a b 0
unfolding AgreesOn
AgreesOn-zero m a b c d low high f = absurd (omega arith)

AgreesOn-suc :
    (m : Memory) (a b n : ℕ)
    → char m a ≡ char m b
    → AgreesOn m (a + 1) (b + 1) n
    → AgreesOn m a b (suc n)
unfolding AgreesOn
AgreesOn-suc m a b n e h c d low high f = elim (cases c a) [
  | inl here ↦
      ap (char m) (at_start c a low here)
      ∙ e
      ∙ ap (char m) (other_start c d a b f (at_start c a low here))
  | inr there ↦ h c d (omega arith) (omega arith) (omega arith)
]
  where
    cases : (x y : ℕ) → (x ≤ y) ⊎ (y < x)
    cases x y = omega arith

    at_start : (x y : ℕ) → y ≤ x → x ≤ y → x ≡ y
    at_start x y f g = omega arith

    other_start : (c d a b : ℕ) → c + b ≡ d + a → c ≡ a → b ≡ d
    other_start c d a b f g = omega arith

pub minus_zero : (x y : ℕ) → x < 256 → y < 256 → minus (shifted x) (shifted y) ≡ pos 0 → x ≡ y
minus_zero x y h k e = ground arith

pub char-lt : (m : Memory) (a : ℕ) → char m a < 256
char-lt m a = omega arith

string_cmp-AgreesOn : (m : Memory) (a b n : ℕ) → string_cmp m a b n ≡ pos 0 → AgreesOn m a b n
unfolding string_cmp
string_cmp-AgreesOn m a b zero e = AgreesOn-zero m a b
string_cmp-AgreesOn m a b (suc n) e =
    let same = minus_zero (char m a) (char m b) (char-lt m a) (char-lt m b) in
    AgreesOn-suc m a b n (ground (arith, same))
      (string_cmp-AgreesOn m (a + 1) (b + 1) n (ground (arith, same)))

AgreesOn-string_cmp : (m : Memory) (a b n : ℕ) → AgreesOn m a b n → string_cmp m a b n ≡ pos 0
unfolding string_cmp AgreesOn
AgreesOn-string_cmp m a b zero h = refl
AgreesOn-string_cmp m a b (suc n) h = ground (
  arith,
  h a b (omega arith) (omega arith) (omega arith),
  AgreesOn-string_cmp m (a + 1) (b + 1) n
      (λ c d low high f. h c d (omega arith) (omega arith) (omega arith)),
)

-- Two blocks compare equal exactly if all their bytes agree.
pub string_cmp_iff : (m : Memory) (a b n : ℕ) → (string_cmp m a b n ≡ pos 0) ↔ AgreesOn m a b n
string_cmp_iff m a b n = (string_cmp-AgreesOn m a b n, AgreesOn-string_cmp m a b n)

pub IsString-suc : (m : Memory) (p n : ℕ) → IsString m p (suc n) → IsString m (p + 1) n
IsString-suc m p n s = record {
  filled = λ i h e. s.filled (i + 1) (omega arith) (ap (char m) (step i) ∙ e);
  ends = ap (char m) (step' n) ∙ s.ends;
}
  where
    step : (i : ℕ) → p + (i + 1) ≡ p + 1 + i
    step i = omega arith

    step' : (i : ℕ) → p + 1 + i ≡ p + suc i
    step' i = omega arith

-- The limited length is the string's own if that is below the limit, and else the limit.
pub string_len_max-IsString :
    (m : Memory) (p n limit : ℕ)
    → IsString m p n
    → string_len_max m p limit ≡ (if ltb n limit then n else limit)
unfolding string_len_max
string_len_max-IsString m p n zero s = ground arith
string_len_max-IsString m p zero (suc limit) s = ground (arith, s.ends)
string_len_max-IsString m p (suc n) (suc limit) s = ground (
  arith,
  s.filled 0 (omega arith),
  string_len_max-IsString m (p + 1) n limit (IsString-suc m p n s),
)
