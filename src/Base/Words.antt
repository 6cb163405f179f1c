-- ===== src/Base/Words.antt =====
-- Little-endian words of any number of bytes in byte memory, for packed records.
use Prim.Native.Nat.{ℕ, zero, suc, ◌+◌, ◌*◌, ◌/◌, ◌%◌, ◌^◌, ◌≤◌, ◌<◌}
use mathlib.Core.Path.{◌≡◌, refl}
use mathlib.Core.Logic.{◌⊎◌, inl, inr}
use native.Mathlib.Omega.{arith}
use native.Mathlib.Nat.{pow-suc}
use krnl.Base.Memory.{Memory, store8}

unfoldable pub load_bytes : Memory → ℕ → ℕ → ℕ
load_bytes m a zero = 0
load_bytes m a (suc n) = m a % 256 + 256 * load_bytes m (a + 1) n

unfoldable pub store_bytes : Memory → ℕ → ℕ → ℕ → Memory
store_bytes m a zero v = m
store_bytes m a (suc n) v = store8 (store_bytes m (a + 1) n (v / 256)) a (v % 256)

pub load_bytes-lt : (m : Memory) (a n : ℕ) → load_bytes m a n < 256 ^ n
unfolding load_bytes
load_bytes-lt m a zero = omega arith
load_bytes-lt m a (suc n) = omega (arith, load_bytes-lt m (a + 1) n, pow-suc 256 n)

pub store_bytes_outside :
    (m : Memory) (a n v b : ℕ) → (b + 1 ≤ a) ⊎ (a + n ≤ b) → store_bytes m a n v b ≡ m b
unfolding store_bytes
store_bytes_outside m a zero v b h = refl
store_bytes_outside m a (suc n) v b (inl h) =
    ground (arith, store_bytes_outside m (a + 1) n (v / 256) b (inl (omega arith)))
store_bytes_outside m a (suc n) v b (inr h) =
    ground (arith, store_bytes_outside m (a + 1) n (v / 256) b (inr (omega arith)))

-- Agreement on its bytes is enough for the word.
pub load_bytes_cong :
    (m n : Memory) (a k : ℕ)
    → ((b : ℕ) → a ≤ b → b < a + k → m b ≡ n b)
    → load_bytes m a k ≡ load_bytes n a k
unfolding load_bytes
load_bytes_cong m n a zero h = refl
load_bytes_cong m n a (suc k) h = omega (
  arith,
  h a (omega arith) (omega arith),
  load_bytes_cong m n (a + 1) k (λ b p q. h b (omega arith) (omega arith)),
)

pub load_bytes-store_bytes_apart :
    (m : Memory) (a k v b n : ℕ)
    → (b + n ≤ a) ⊎ (a + k ≤ b)
    → load_bytes (store_bytes m a k v) b n ≡ load_bytes m b n
load_bytes-store_bytes_apart m a k v b n (inl h) =
    load_bytes_cong (store_bytes m a k v) m b n
      λ c p q. store_bytes_outside m a k v c (inl (omega arith))
load_bytes-store_bytes_apart m a k v b n (inr h) =
    load_bytes_cong (store_bytes m a k v) m b n
      λ c p q. store_bytes_outside m a k v c (inr (omega arith))

-- A stored word is read back up to its width.
pub load_bytes-store_bytes_self :
    (m : Memory) (a n v : ℕ) → v < 256 ^ n → load_bytes (store_bytes m a n v) a n ≡ v
unfolding load_bytes store_bytes
load_bytes-store_bytes_self m a zero v h = omega arith
load_bytes-store_bytes_self m a (suc n) v h =
    let inner : Memory = store_bytes m (a + 1) n (v / 256) in
    let rest : load_bytes (store8 inner a (v % 256)) (a + 1) n ≡ load_bytes inner (a + 1) n =
      load_bytes_cong (store8 inner a (v % 256)) inner (a + 1) n (λ b p q. ground arith) in
    let first : store8 inner a (v % 256) a ≡ v % 256 = ground arith in
    omega (
      arith,
      rest,
      first,
      load_bytes-store_bytes_self m (a + 1) n (v / 256) (omega (arith, pow-suc 256 n)),
      pow-suc 256 n,
    )

-- A two-byte field keeps the low sixteen bits.
pub load_bytes-store_bytes_two :
    (m : Memory) (a v : ℕ) → load_bytes (store_bytes m a 2 v) a 2 ≡ v % 2 ^ 16
unfolding load_bytes store_bytes
load_bytes-store_bytes_two m a v = ground arith
