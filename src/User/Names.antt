-- ===== src/User/Names.antt =====
-- The name that a user is given.
use krnl.Base.{
  ℕ, ◌+◌, ◌-◌, ◌%◌, ◌≤◌, ◌<◌, ◌≡◌, ◌≢◌, ◌⊎◌, sym, ap, ◌∙◌, some, arith, ltb, leb, if◌then◌else◌,
}
use krnl.Base.Memory.{Memory, store8}
use krnl.Ascii.{char, copy_bytes}
use krnl.Ascii.Copy.{copy_bytes_inside, copy_bytes_outside}
use krnl.Ascii.Text.{IsString, string_len-IsString}
use krnl.Utf.{urt_copy_memory}
use krnl.User.{user_set_name, max_user_name_len}

-- The bytes of a name of `k` characters.
named : Memory → ℕ → ℕ → ℕ → Memory
named m dst src k = store8 (copy_bytes m src dst k) (dst + k) 0

named_char :
    (m : Memory) (dst src k i : ℕ)
    → (dst ≤ src) ⊎ (src + k ≤ dst)
    → i < k
    → named m dst src k (dst + i) ≡ m (src + i)
unfolding named
named_char m dst src k i apart h = ground (
  arith,
  copy_bytes_inside m src dst k (dst + i) (src + i) apart (omega arith) (omega arith) (omega arith),
)

named_outside :
    (m : Memory) (dst src k b : ℕ) → (b < dst) ⊎ (dst + k < b) → named m dst src k b ≡ m b
unfolding named
named_outside m dst src k b h = ground (arith, copy_bytes_outside m src dst k b (omega arith))

named-IsString :
    (m : Memory) (dst src k : ℕ)
    → (dst ≤ src) ⊎ (src + k ≤ dst)
    → ((i : ℕ) → i < k → char m (src + i) ≢ 0)
    → IsString (named m dst src k) dst k
unfolding named
named-IsString m dst src k apart h = record {
  filled = λ i f e. h i f (ap (λ x. x % 256) (sym (named_char m dst src k i apart f)) ∙ e);
  ends = ground arith;
}

-- The name is the string cut at 255 characters, which ends within the user's 256 bytes: nothing else
-- is written.
pub user_set_name-IsString :
    (fuel : ℕ) (m : Memory) (dst src n : ℕ)
    → dst ≢ 0
    → src ≢ 0
    → IsString m src n
    → n < fuel
    → (src + n < dst) ⊎ (dst + max_user_name_len ≤ src)
    → (m' : Memory) × (k : ℕ) × (user_set_name fuel m dst src ≡ some m')
      × (k ≡ (if ltb n max_user_name_len then n else max_user_name_len - 1))
      × IsString m' dst k
      × ((i : ℕ) → i < k → m' (dst + i) ≡ m (src + i))
      × ((b : ℕ) → (b < dst) ⊎ (dst + max_user_name_len ≤ b) → m' b ≡ m b)
unfolding user_set_name urt_copy_memory named
user_set_name-IsString fuel m dst src n d s str f apart =
    let k = if leb max_user_name_len n then max_user_name_len - 1 else n in
    let far : (dst ≤ src) ⊎ (src + k ≤ dst) = ground arith in
    let within : k ≤ n = ground arith in
    let short : k < max_user_name_len = ground arith in
    (
      named m dst src k,
      k,
      ground (arith, string_len-IsString m src n fuel str f),
      ground arith,
      named-IsString m dst src k far (λ i h. str.filled i (omega arith)),
      λ i h. named_char m dst src k i far h,
      λ b h. named_outside m dst src k b (omega arith),
    )
