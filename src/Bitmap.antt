-- ===== src/Bitmap.antt =====
-- The bitmap allocator of private/minkernel/src/BitMapMgr.cpp: blocks with a three-word header
-- (magic, size, used) laid one after another in byte memory, walked from `kBitMapCursor`. The
-- compiler's `__BIGGEST_ALIGNMENT__` is the section's parameter `align`; address arithmetic is taken
-- within 64 bits. `mm_free_bitmap`'s MUST_PASS is a no-op, as in a build without __DEBUG__.
pub mod Walk
pub mod Release
use krnl.Base.{
  ℕ, zero, suc, ◌+◌, ◌-◌, ◌*◌, ◌^◌, Bool, true, false, not, Option, none, some, ltb, leb, ◌==◌,
  if◌then◌else◌,
}
use krnl.Base.Memory.{Memory, load64, store64}

abbrev pub bitmap_magic : ℕ
bitmap_magic = 0x10210

-- `gib_cast(4)`.
abbrev pub bitmap_max_sz : ℕ
bitmap_max_sz = 4 * 1024 * 1024 * 1024

-- `kBitMapSz` words.
abbrev pub header_bytes : ℕ
header_bytes = 3 * 8

pub record BitMap : Type 0 where
  pub mem : Memory
  pub cursor : ℕ
  pub biggest : ℕ

-- The words of the header at an address.
abbrev pub magic_at : Memory → ℕ → ℕ
magic_at m a = load64 m a

abbrev pub size_at : Memory → ℕ → ℕ
size_at m a = load64 m (a + 8)

abbrev pub used_at : Memory → ℕ → ℕ
used_at m a = load64 m (a + 16)

unfoldable pub is_bitmap : BitMap → ℕ → Bool
is_bitmap s page_ptr =
    if page_ptr == 0 then false else if magic_at s.mem page_ptr == bitmap_magic then true else false

pub free_bitmap : BitMap → ℕ → Bool × BitMap
unfolding is_bitmap
free_bitmap s page_ptr =
    if not (is_bitmap s page_ptr)
    then (false, s)
    else (let block = page_ptr - header_bytes in
        if block == 0
        then (false, s)
        else if not (magic_at s.mem block == bitmap_magic)
        then (false, s)
        else (
          true,
          record s {
            cursor =
                if leb (size_at s.mem block) s.cursor
                then s.cursor - size_at s.mem block
                else s.cursor;
            mem = store64 s.mem (block + 16) 0;
          },
        ))

-- `MakeMMFlags`: present, writable, user.
unfoldable pub make_mm_flags : Bool → Bool → ℕ
make_mm_flags wr user = 1 + (if wr then 2 else 0) + (if user then 4 else 0)

module _ (align : ℕ) where
  -- A block that is taken over: its size and used words, and its magic if it had none.
  pub claim : BitMap → ℕ → ℕ → BitMap
  claim s block total = record s {
    mem = store64 (store64 s.mem (block + 8) total) (block + 16) 1;
    biggest = if ltb s.biggest total then total else s.biggest;
    cursor = s.cursor + total + align;
  }

  pub claim_fresh : BitMap → ℕ → ℕ → BitMap
  claim_fresh s block total = record s {
    mem = store64 (store64 (store64 s.mem block bitmap_magic) (block + 8) total) (block + 16) 1;
    biggest = if ltb s.biggest total then total else s.biggest;
    cursor = s.cursor + total + align;
  }

  -- The loop of `FindBitMap`, on fuel; `none` when the fuel runs out.
  pub find_loop : ℕ → BitMap → ℕ → ℕ → Option (ℕ × BitMap)
  unfolding claim claim_fresh
  find_loop zero s block total = none
  find_loop (suc fuel) s block total =
      let offset =
        if not (magic_at s.mem block == bitmap_magic) then total else size_at s.mem block in
      let rest = find_loop fuel s (block + offset + align) total in
      if magic_at s.mem block == bitmap_magic
      then (if used_at s.mem block == 0
          then some (block + header_bytes, claim s block total)
          else rest)
      else (if used_at s.mem block == 0
          then some (block + header_bytes, claim_fresh s block total)
          else rest)

  pub find_bitmap : ℕ → BitMap → ℕ → ℕ → ℕ → Option (ℕ × BitMap)
  unfolding find_loop
  find_bitmap fuel s base_ptr size pad =
      if size == 0
      then some (0, s)
      else if ltb bitmap_max_sz size
      then some (0, s)
      else find_loop fuel s (base_ptr + s.cursor) (size + pad)

  -- `start` is `kKernelBitMpStart`.
  pub mm_alloc_bitmap : ℕ → BitMap → ℕ → ℕ → Bool → ℕ → Option (ℕ × BitMap)
  mm_alloc_bitmap fuel s start size is_page pad =
      if is_page then some (0, s) else find_bitmap fuel s start size pad

unfoldable pub mm_is_bitmap : BitMap → ℕ → Bool
unfolding is_bitmap
mm_is_bitmap s ptr = is_bitmap s ptr

pub mm_free_bitmap : BitMap → ℕ → Bool × BitMap
unfolding free_bitmap
mm_free_bitmap s ptr = if ptr == 0 then (false, s) else free_bitmap s ptr
