-- ===== src/Indexer/Claims.antt =====
-- The flags of claimed and unclaimed properties.
use krnl.Base.{ℕ, ◌/◌, ◌%◌, ◌^◌, ◌<◌, ◌≡◌, ◌≢◌, arith}
use krnl.Base.Bits.{bit_and, bit_or, bit_and_step, bit_or_step, bit_and-lt}
use krnl.Base.Memory.{Memory}
use krnl.Indexer.{
  IndexableProperty, indexer_claimed, indexer_unclaimed, has_flag, add_flag, remove_flag,
  fs_index_file, fs_unindex_file,
}

-- Bit 1 is set in the flag for unclaimed, and in the one for claimed.
shared_bit : (x : ℕ) → bit_and (bit_or x 0xca) 0xcf % 2 ^ 16 ≢ 0
shared_bit x e = omega (
  arith,
  e,
  bit_and_step (bit_or x 0xca) 0xcf,
  bit_and_step (bit_or x 0xca / 2) 0x67,
  bit_or_step x 0xca,
  bit_or_step (x / 2) 0x65,
  small (bit_or x 0xca),
)
  where
    small : (y : ℕ) → bit_and y 0xcf < 2 ^ 16
    small y = bit_and-lt 16 y 0xcf (omega arith)

claimed_still :
    (p : IndexableProperty) → has_flag (add_flag p indexer_unclaimed) indexer_claimed ≢ 0
unfolding has_flag add_flag
claimed_still p = shared_bit p.flags

-- A property that was claimed cannot be indexed again after it was unindexed: the flag for unclaimed
-- shares bits with the one for claimed, which the test takes for a claim.
index-unindex_refused :
    (m : Memory) (filename len : ℕ) (p : IndexableProperty)
    → has_flag p indexer_claimed ≢ 0
    → fs_index_file m filename len (fs_unindex_file p) ≡ (m, fs_unindex_file p)
unfolding fs_index_file fs_unindex_file
index-unindex_refused m filename len p h =
    ground (arith, claimed_still (remove_flag p indexer_claimed))
