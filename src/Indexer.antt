-- ===== src/Indexer.antt =====
-- The file indexer of private/minkernel/src/IndexableProperty.cpp. The property's path is a buffer of
-- 256 bytes in memory, at `path`; its flags are 32 bits.
pub mod Claims
use krnl.Base.{ℕ, ◌+◌, ◌-◌, ◌%◌, ◌^◌, Bool, not, ◌==◌, if◌then◌else◌}
use krnl.Base.Bits.{bit_and, bit_or}
use krnl.Base.Memory.{Memory}
use krnl.Ascii.{copy_memory_safe}

abbrev pub indexer_claimed : ℕ
indexer_claimed = 0xcf

abbrev pub indexer_unclaimed : ℕ
indexer_unclaimed = 0xca

abbrev pub indexer_catalog_name_length : ℕ
indexer_catalog_name_length = 256

pub record IndexableProperty : Type 0 where
  pub path : ℕ
  pub flags : ℕ

pub add_flag : IndexableProperty → ℕ → IndexableProperty
add_flag p flag = record p { flags = bit_or p.flags flag }

pub remove_flag : IndexableProperty → ℕ → IndexableProperty
remove_flag p flag = record p { flags = bit_and p.flags (2 ^ 32 - 1 - flag) }

-- The result is cut to 16 bits.
unfoldable pub has_flag : IndexableProperty → ℕ → ℕ
has_flag p flag = bit_and p.flags flag % 2 ^ 16

pub fs_index_file : Memory → ℕ → ℕ → IndexableProperty → Memory × IndexableProperty
unfolding add_flag remove_flag has_flag
fs_index_file m filename len indexer =
    if has_flag indexer indexer_claimed == 0
    then (
      (copy_memory_safe m filename indexer.path len indexer_catalog_name_length).1,
      add_flag (remove_flag indexer indexer_unclaimed) indexer_claimed,
    )
    else (m, indexer)

pub fs_unindex_file : IndexableProperty → IndexableProperty
unfolding add_flag remove_flag has_flag
fs_unindex_file indexer =
    if not (has_flag indexer indexer_claimed == 0)
    then add_flag (remove_flag indexer indexer_claimed) indexer_unclaimed
    else indexer
