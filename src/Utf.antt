-- ===== src/Utf.antt =====
-- Strings of UTF-8 units and their memory, from private/minkernel/src/UtfUtils.cpp.
pub mod Agreement
use krnl.Base.{
  ℕ, zero, suc, ◌+◌, ◌%◌, ◌^◌, Bool, true, false, not, ◌||◌, Option, none, some, ◌==◌,
  if◌then◌else◌,
}
use krnl.Base.Int.{ℤ, pos, negsuc}
use krnl.Base.Memory.{Memory, store8}
use krnl.Ascii.{char, to_int32, string_len, copy_bytes, set_bytes}

unfoldable pub urt_string_len : ℕ → Memory → ℕ → Option ℕ
urt_string_len fuel m str = if str == 0 then some 0 else string_len fuel m str 0

unfoldable pub urt_set_memory : Memory → ℕ → ℕ → ℕ → Memory
urt_set_memory m src dst len = if src == 0 then m else set_bytes m src (dst % 256) len

-- The loop counts the units that differ, in a 32-bit number.
pub urt_count : Memory → ℕ → ℕ → ℕ → ℕ → ℕ
urt_count m src cmp counter zero = counter
urt_count m src cmp counter (suc size) =
    urt_count m (src + 1) (cmp + 1) (if char m src == char m cmp then counter else counter + 1) size

pub urt_string_cmp : Memory → ℕ → ℕ → ℕ → ℤ
unfolding urt_count
urt_string_cmp m src cmp size = if src == 0 then pos 0 else to_int32 (urt_count m src cmp 0 size)

unfoldable pub urt_copy_memory : Memory → ℕ → ℕ → ℕ → ℤ × Memory
urt_copy_memory m src dst len =
    if src == 0 || dst == 0 then (pos 0, m) else (to_int32 len, copy_bytes m src dst len)
