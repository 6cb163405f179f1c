-- ===== src/Utf/Agreement.antt =====
-- The comparison of UTF-8 strings against that of plain ones.
use krnl.Base.{ℕ, zero, suc, ◌+◌, ◌≤◌, ◌<◌, ◌≡◌, ◌≢◌, ◌↔◌, refl, arith, ◌==◌, if◌then◌else◌, ◌^◌}
use krnl.Base.Int.{pos}
use krnl.Base.Memory.{Memory}
use krnl.Ascii.{char, string_cmp}
use krnl.Ascii.Text.{minus_zero, char-lt}
use krnl.Utf.{urt_count, urt_string_cmp}

urt_count-bounds :
    (m : Memory) (a b c n : ℕ) → (c ≤ urt_count m a b c n) × (urt_count m a b c n ≤ c + n)
unfolding urt_count
urt_count-bounds m a b c zero = (omega arith, omega arith)
urt_count-bounds m a b c (suc n) =
    let (low, high) =
      urt_count-bounds m (a + 1) (b + 1) (if char m a == char m b then c else c + 1) n in
    (ground arith, ground arith)

urt_count-string_cmp :
    (m : Memory) (a b c n : ℕ) → urt_count m a b c n ≡ c → string_cmp m a b n ≡ pos 0
unfolding urt_count string_cmp
urt_count-string_cmp m a b c zero e = refl
urt_count-string_cmp m a b c (suc n) e =
    let (low, high) = urt_count-bounds m (a + 1) (b + 1) (c + 1) n in
    ground (arith, urt_count-string_cmp m (a + 1) (b + 1) c n)

string_cmp-urt_count :
    (m : Memory) (a b c n : ℕ) → string_cmp m a b n ≡ pos 0 → urt_count m a b c n ≡ c
unfolding urt_count string_cmp
string_cmp-urt_count m a b c zero e = refl
string_cmp-urt_count m a b c (suc n) e = ground (
  arith,
  minus_zero (char m a) (char m b) (char-lt m a) (char-lt m b),
  string_cmp-urt_count m (a + 1) (b + 1) c n,
)

-- On strings of fewer than 2 ^ 31 units, with a first string, the UTF-8 comparison gives 0 exactly if
-- the plain one does, and its result is the number of units that differ, at most the size.
urt_string_cmp_iff :
    (m : Memory) (src cmp size : ℕ)
    → src ≢ 0
    → size < 2 ^ 31
    → ((urt_string_cmp m src cmp size ≡ pos 0) ↔ (string_cmp m src cmp size ≡ pos 0))
      × ((differing : ℕ) × (urt_string_cmp m src cmp size ≡ pos differing) × (differing ≤ size))
unfolding urt_string_cmp
urt_string_cmp_iff m src cmp size s h =
    let (low, high) = urt_count-bounds m src cmp 0 size in
    (
      (
        λ e. urt_count-string_cmp m src cmp 0 size (ground arith),
        λ e. ground (arith, string_cmp-urt_count m src cmp 0 size e),
      ),
      (urt_count m src cmp 0 size, ground arith, omega arith),
    )
