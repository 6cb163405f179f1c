-- ===== src/Hefs/Swap.antt =====
-- The swap of bytes that the hash of a path ends with.
use krnl.Base.{ℕ, ◌^◌, ◌<◌, ◌≡◌, arith}
use krnl.Hefs.Words.{to_big_endian_64}

-- Swapping the bytes of a 64-bit number twice gives it back.
to_big_endian_64-involutive :
    (val : ℕ) → val < 2 ^ 64 → to_big_endian_64 (to_big_endian_64 val) ≡ val
unfolding to_big_endian_64
to_big_endian_64-involutive val h = omega arith
