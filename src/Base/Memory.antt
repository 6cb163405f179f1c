-- ===== src/Base/Memory.antt =====
-- Byte memory, read and written a byte or a 64-bit little-endian word at a time. An address that
-- the program dereferences is a plain number; an unaligned word overlaps its neighbours.
use Prim.Native.Nat.{ℕ, ◌+◌, ◌*◌, ◌/◌, ◌%◌, ◌^◌, ◌≤◌, ◌<◌}
use mathlib.Core.Path.{◌≡◌, refl, ◌∙◌}
use mathlib.Core.Logic.{◌⊎◌, inl, inr}
use mathlib.Core.Bool.{◌&&◌}
use native.Mathlib.Omega.{arith}
use krnl.Base.Tests.{◌==◌, ltb, leb, if◌then◌else◌}

abbrev pub Memory : Type 0
Memory = ℕ → ℕ

abbrev pub store8 : Memory → ℕ → ℕ → Memory
store8 m a v b = if a == b then v else m b

-- Every byte of a block is set to one value.
abbrev pub fill : Memory → ℕ → ℕ → ℕ → Memory
fill m dst v len b = if leb dst b && ltb b (dst + len) then v else m b

unfoldable pub load64 : Memory → ℕ → ℕ
load64 m a =
    m a % 256
    + 256 * (m (a + 1) % 256)
    + 2 ^ 16 * (m (a + 2) % 256)
    + 2 ^ 24 * (m (a + 3) % 256)
    + 2 ^ 32 * (m (a + 4) % 256)
    + 2 ^ 40 * (m (a + 5) % 256)
    + 2 ^ 48 * (m (a + 6) % 256)
    + 2 ^ 56 * (m (a + 7) % 256)

unfoldable pub store64 : Memory → ℕ → ℕ → Memory
store64 m a v b =
    if b == a
    then v % 256
    else if b == a + 1
    then v / 256 % 256
    else if b == a + 2
    then v / 2 ^ 16 % 256
    else if b == a + 3
    then v / 2 ^ 24 % 256
    else if b == a + 4
    then v / 2 ^ 32 % 256
    else if b == a + 5
    then v / 2 ^ 40 % 256
    else if b == a + 6
    then v / 2 ^ 48 % 256
    else if b == a + 7
    then v / 2 ^ 56 % 256
    else m b

pub load64-lt : (m : Memory) (a : ℕ) → load64 m a < 2 ^ 64
unfolding load64
load64-lt m a = omega arith

pub store64_outside : (m : Memory) (a v b : ℕ) → (b + 1 ≤ a) ⊎ (a + 8 ≤ b) → store64 m a v b ≡ m b
unfolding store64
store64_outside m a v b h = ground arith

-- Agreement on the eight bytes is enough for the word.
pub load64_cong :
    (m n : Memory) (a : ℕ) → ((b : ℕ) → a ≤ b → b < a + 8 → m b ≡ n b) → load64 m a ≡ load64 n a
unfolding load64
load64_cong m n a h = cc (
  h a (omega arith) (omega arith),
  h (a + 1) (omega arith) (omega arith),
  h (a + 2) (omega arith) (omega arith),
  h (a + 3) (omega arith) (omega arith),
  h (a + 4) (omega arith) (omega arith),
  h (a + 5) (omega arith) (omega arith),
  h (a + 6) (omega arith) (omega arith),
  h (a + 7) (omega arith) (omega arith),
)

pub load64-store64_apart :
    (m : Memory) (a v b : ℕ) → (b + 8 ≤ a) ⊎ (a + 8 ≤ b) → load64 (store64 m a v) b ≡ load64 m b
load64-store64_apart m a v b (inl h) =
    load64_cong (store64 m a v) m b λ c p q. store64_outside m a v c (inl (omega arith))
load64-store64_apart m a v b (inr h) =
    load64_cong (store64 m a v) m b λ c p q. store64_outside m a v c (inr (omega arith))

store64_at0 : (m : Memory) (a v : ℕ) → store64 m a v a ≡ v % 256
unfolding store64
store64_at0 m a v = ground arith

store64_at1 : (m : Memory) (a v : ℕ) → store64 m a v (a + 1) ≡ v / 256 % 256
unfolding store64
store64_at1 m a v = ground arith

store64_at2 : (m : Memory) (a v : ℕ) → store64 m a v (a + 2) ≡ v / 2 ^ 16 % 256
unfolding store64
store64_at2 m a v = ground arith

store64_at3 : (m : Memory) (a v : ℕ) → store64 m a v (a + 3) ≡ v / 2 ^ 24 % 256
unfolding store64
store64_at3 m a v = ground arith

store64_at4 : (m : Memory) (a v : ℕ) → store64 m a v (a + 4) ≡ v / 2 ^ 32 % 256
unfolding store64
store64_at4 m a v = ground arith

store64_at5 : (m : Memory) (a v : ℕ) → store64 m a v (a + 5) ≡ v / 2 ^ 40 % 256
unfolding store64
store64_at5 m a v = ground arith

store64_at6 : (m : Memory) (a v : ℕ) → store64 m a v (a + 6) ≡ v / 2 ^ 48 % 256
unfolding store64
store64_at6 m a v = ground arith

store64_at7 : (m : Memory) (a v : ℕ) → store64 m a v (a + 7) ≡ v / 2 ^ 56 % 256
unfolding store64
store64_at7 m a v = ground arith

bytes_of_word :
    (v : ℕ)
    → v < 2 ^ 64
    → v % 256 % 256
        + 256 * (v / 256 % 256 % 256)
        + 2 ^ 16 * (v / 2 ^ 16 % 256 % 256)
        + 2 ^ 24 * (v / 2 ^ 24 % 256 % 256)
        + 2 ^ 32 * (v / 2 ^ 32 % 256 % 256)
        + 2 ^ 40 * (v / 2 ^ 40 % 256 % 256)
        + 2 ^ 48 * (v / 2 ^ 48 % 256 % 256)
        + 2 ^ 56 * (v / 2 ^ 56 % 256 % 256)
      ≡ v
bytes_of_word v h = omega arith

pub load64-store64_self : (m : Memory) (a v : ℕ) → v < 2 ^ 64 → load64 (store64 m a v) a ≡ v
unfolding load64
load64-store64_self m a v h =
    rw
      (
        store64_at0 m a v,
        store64_at1 m a v,
        store64_at2 m a v,
        store64_at3 m a v,
        store64_at4 m a v,
        store64_at5 m a v,
        store64_at6 m a v,
        store64_at7 m a v,
      )
      (bytes_of_word v h)

load64_zeros : (a : ℕ) → load64 (λ _. 0) a ≡ 0
unfolding load64
load64_zeros a = refl

pub load64-fill_zero :
    (m : Memory) (dst len a : ℕ) → dst ≤ a → a + 8 ≤ dst + len → load64 (fill m dst 0 len) a ≡ 0
load64-fill_zero m dst len a h k =
    load64_cong (fill m dst 0 len) (λ _. 0) a (λ c p q. ground arith) ∙ load64_zeros a

pub load64-fill_apart :
    (m : Memory) (dst v len a : ℕ)
    → (a + 8 ≤ dst) ⊎ (dst + len ≤ a)
    → load64 (fill m dst v len) a ≡ load64 m a
load64-fill_apart m dst v len a (inl h) = load64_cong (fill m dst v len) m a λ c p q. ground arith
load64-fill_apart m dst v len a (inr h) = load64_cong (fill m dst v len) m a λ c p q. ground arith
