-- ===== src/Tests/Blocks.antt =====
-- An arena of zeros from address 4096, in which blocks are allocated.
use krnl.Base.{◌+◌, ◌^◌, ◌<◌, ◌≡◌, ◌≢◌, refl, true, false, arith, [], some, ◌==◌, if◌then◌else◌}
use krnl.Base.Memory.{load64}
use krnl.Base.Words.{load_bytes}
use krnl.Bitmap.{
  BitMap, bitmap_magic, header_bytes, magic_at, mm_alloc_bitmap, mm_is_bitmap, is_bitmap,
  mm_free_bitmap,
}
use krnl.Bitmap.Walk.{Arena, first_free, Placed, mm_alloc_bitmap-first_free}
use krnl.Bitmap.Release.{free-alloc_refused}
use krnl.Heap.{
  heap_hdr_sz, info_bytes, error_success, error_heap_not_present, write_header, mm_is_valid_ptr,
  check_ptr_address, mm_alloc_ptr, mm_free_ptr, returned, stopped,
}
use krnl.Heap.Lifetime.{mm_free_ptr_once, free_ptr-alloc_ptr_refused, alloc_ptr_too_large}

abbrev empty : BitMap
empty = record { mem = λ a. 0; cursor = 0; biggest = 0 }

empty-Arena : Arena 16 empty.mem (4096 + empty.cursor) []
unfolding load64
empty-Arena = ((λ e. omega (arith, e)), refl)

no_magic : magic_at empty.mem (first_free 16 (4096 + empty.cursor) [] + header_bytes) ≢ bitmap_magic
unfolding load64
no_magic e = omega (arith, e)

alloc_bitmap_example :
    let a = first_free 16 (4096 + empty.cursor) [] in
    (t : BitMap) × (mm_alloc_bitmap 16 1 empty 4096 64 false 8 ≡ some (a + header_bytes, t))
    × Placed 16 empty t a (64 + 8)
alloc_bitmap_example =
    mm_alloc_bitmap-first_free 16 1 empty 4096 64 8 [] (omega arith) (omega arith) (omega arith)
      empty-Arena (omega arith)

free_alloc_example :
    let ptr = first_free 16 (4096 + empty.cursor) [] + header_bytes in
    (t : BitMap) × (mm_alloc_bitmap 16 1 empty 4096 64 false 8 ≡ some (ptr, t))
    × (mm_free_bitmap t ptr ≡ (false, t))
free_alloc_example =
    free-alloc_refused 16 1 empty 4096 64 8 [] (omega arith) (omega arith) (omega arith) empty-Arena
      (omega arith) no_magic

alloc_refused_example :
    let ptr = first_free 16 (4096 + empty.cursor) [] + header_bytes + heap_hdr_sz in
    (t : BitMap) × (mm_alloc_ptr 16 1 empty 4096 64 true false 0 ≡ some (ptr, t))
    × (mm_is_valid_ptr t ptr ≡ false)
    × (mm_free_ptr t ptr ≡ returned error_heap_not_present t)
unfolding first_free
alloc_refused_example =
    free_ptr-alloc_ptr_refused 16 1 empty 4096 64 true false 0 [] (omega arith) (omega arith)
      (omega arith) empty-Arena (omega arith) first_low no_magic
  where
    first_low : first_free 16 (4096 + empty.cursor) [] + 92 < 2 ^ 64
    first_low = omega arith

too_large_example :
    (t : BitMap) × (mm_alloc_ptr 16 1 empty 4096 (2 ^ 33) true false 0 ≡ some (heap_hdr_sz, t))
    × (t.mem ≡ write_header empty.mem info_bytes (2 ^ 33 + heap_hdr_sz) true false 0)
too_large_example =
    alloc_ptr_too_large 16 1 empty 4096 (2 ^ 33) true false 0 (omega arith) (omega arith)

-- A block of the heap as the check wants it: magic 68 bytes below the pointer, and a present header 34
-- bytes below.
abbrev heap_block : BitMap
heap_block = record {
  mem = λ a.
      if a == 4096
      then 16
      else if a == 4097
      then 2
      else if a == 4098
      then 1
      else if a == 4130
      then 117
      else if a == 4131
      then 77
      else if a == 4132
      then 13
      else if a == 4133
      then 1
      else 0;
  cursor = 200;
  biggest = 0;
}

heap_block-valid : mm_is_valid_ptr heap_block 4164 ≡ true
unfolding mm_is_valid_ptr check_ptr_address mm_is_bitmap is_bitmap load64 load_bytes
heap_block-valid = refl

free_once_example :
    (t : BitMap) × (mm_free_ptr heap_block 4164 ≡ returned error_success t)
    × (mm_free_ptr t 4164 ≡ stopped)
    × (mm_is_valid_ptr t 4164 ≡ false)
free_once_example = mm_free_ptr_once heap_block 4164 heap_block-valid
