-- ===== src/Ascii/Copy.antt =====
-- What the copies and fills leave in memory.
use krnl.Base.{
  ℕ, zero, suc, ◌+◌, ◌%◌, ◌≤◌, ◌<◌, ◌≡◌, ◌≢◌, ◌⊎◌, inl, inr, refl, ap, ◌∙◌, arith, ◌==◌,
  if◌then◌else◌,
}
use krnl.Base.Int.{negsuc}
use krnl.Base.Memory.{Memory, store8, fill}
use krnl.Ascii.{copy_bytes, set_bytes, set_memory_safe, copy_memory_safe, to_int32}

pub set_bytes-fill : (m : Memory) (p v len b : ℕ) → set_bytes m p v len b ≡ fill m p v len b
unfolding set_bytes
set_bytes-fill m p v zero b = ground arith
set_bytes-fill m p v (suc len) b = ground (arith, set_bytes-fill (store8 m p v) (p + 1) v len b)

pub copy_bytes_outside :
    (m : Memory) (src dst len b : ℕ)
    → (b < dst) ⊎ (dst + len ≤ b)
    → copy_bytes m src dst len b ≡ m b
unfolding copy_bytes
copy_bytes_outside m src dst zero b h = refl
copy_bytes_outside m src dst (suc len) b h =
    copy_bytes_outside (store8 m dst (m src)) (src + 1) (dst + 1) len b (ground arith)
    ∙ ground arith

-- Copied upwards, a block arrives whole if its place does not lie ahead of it within its length.
pub copy_bytes_inside :
    (m : Memory) (src dst len a b : ℕ)
    → (dst ≤ src) ⊎ (src + len ≤ dst)
    → dst ≤ a
    → a < dst + len
    → a + src ≡ b + dst
    → copy_bytes m src dst len a ≡ m b
unfolding copy_bytes
copy_bytes_inside m src dst zero a b h low high e = absurd (omega arith)
copy_bytes_inside m src dst (suc len) a b h low high e = elim (le_cases a dst) [
  | inl here ↦
      copy_bytes_outside (store8 m dst (m src)) (src + 1) (dst + 1) len a (inl (omega arith))
      ∙ first_byte m src dst a b (omega arith) (omega arith)
  | inr there ↦
      copy_bytes_inside (store8 m dst (m src)) (src + 1) (dst + 1) len a b (omega arith)
        (omega arith) (omega arith) (omega arith)
      ∙ other_byte m dst (m src) b (omega arith)
]
  where
    le_cases : (x y : ℕ) → (x ≤ y) ⊎ (y < x)
    le_cases x y = omega arith

    first_byte : (m : Memory) (src dst a b : ℕ) → a ≡ dst → b ≡ src → store8 m dst (m src) a ≡ m b
    first_byte m src dst a b e f = ground (arith, ap m f)

    other_byte : (m : Memory) (dst v b : ℕ) → (b < dst) ⊎ (dst < b) → store8 m dst v b ≡ m b
    other_byte m dst v b h = ground arith

-- A copy that fits moves the whole block, gives its length as a 32-bit number, and touches nothing
-- outside the first `len` bytes of the place; the place must not lie ahead of the block within its
-- length.
pub copy_memory_safe_fits :
    (m : Memory) (src dst len dst_size : ℕ)
    → src ≢ 0
    → dst ≢ 0
    → len ≤ dst_size
    → ((copy_memory_safe m src dst len dst_size).0 ≡ to_int32 len)
      × ((dst ≤ src) ⊎ (src + len ≤ dst)
          → (i : ℕ) → i < len
          → (copy_memory_safe m src dst len dst_size).1 (dst + i) ≡ m (src + i))
      × ((b : ℕ)
          → (b < dst) ⊎ (dst + len ≤ b)
          → (copy_memory_safe m src dst len dst_size).1 b ≡ m b)
unfolding copy_memory_safe
copy_memory_safe_fits m src dst len dst_size s d f = (
  ground arith,
  λ h i k. ground (
    arith,
    copy_bytes_inside m src dst len (dst + i) (src + i) h (omega arith) (omega arith) (omega arith),
  ),
  λ b h. ground (arith, copy_bytes_outside m src dst len b h),
)

-- A copy that does not fit, or has a null pointer, fails with -1 and leaves zeros over the whole
-- place, if there is one, and all other bytes as they were.
pub copy_memory_safe_fails :
    (m : Memory) (src dst len dst_size b : ℕ)
    → (src ≡ 0) ⊎ ((dst ≡ 0) ⊎ (dst_size < len))
    → ((copy_memory_safe m src dst len dst_size).0 ≡ negsuc 0)
      × ((copy_memory_safe m src dst len dst_size).1 b
          ≡ (if dst == 0 then m b else fill m dst 0 dst_size b))
unfolding copy_memory_safe set_memory_safe
copy_memory_safe_fails m src dst len dst_size b h =
    (ground arith, ground (arith, set_bytes-fill m dst 0 dst_size b))

-- A fill writes the low byte of the value over the block, or refuses and writes nothing.
pub set_memory_safe_lem :
    (m : Memory) (dst value len dst_size b : ℕ)
    → (len ≤ dst_size
        → dst ≢ 0
        → ((set_memory_safe m dst value len dst_size).0 ≡ dst)
          × ((set_memory_safe m dst value len dst_size).1 b ≡ fill m dst (value % 256) len b))
      × ((dst ≡ 0) ⊎ (dst_size < len) → set_memory_safe m dst value len dst_size ≡ (0, m))
unfolding set_memory_safe
set_memory_safe_lem m dst value len dst_size b = (
  λ f d. (ground arith, ground (arith, set_bytes-fill m dst (value % 256) len b)),
  λ h. ground arith,
)
