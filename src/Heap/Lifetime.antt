-- ===== src/Heap/Lifetime.antt =====
-- A heap block from its allocation to its release.
use krnl.Base.{
  ℕ, ◌+◌, ◌-◌, ◌%◌, ◌^◌, ◌≤◌, ◌<◌, ◌≡◌, ◌≢◌, inl, inr, refl, sym, ap, ◌∙◌, Bool, Bool-cases, true,
  false, not, arith, ◌==◌, some, List, length,
}
use krnl.Base.Memory.{Memory, load64_cong}
use krnl.Base.Words.{
  store_bytes, load_bytes_cong, store_bytes_outside, load_bytes-store_bytes_apart,
  load_bytes-store_bytes_two,
}
use krnl.Bitmap.{
  BitMap, bitmap_magic, bitmap_max_sz, header_bytes, magic_at, mm_alloc_bitmap, mm_is_bitmap,
  mm_free_bitmap,
}
use krnl.Bitmap.Release.{mm_is_bitmap_iff, mm_free_bitmap_outside, alloc_bitmap_too_large}
use krnl.Bitmap.Walk.{Placed, Block, Arena, first_free, mm_alloc_bitmap-first_free}
use krnl.Heap.{
  heap_magic, info_bytes, heap_hdr_sz, error_success, error_heap_not_present, magic_of, present_of,
  write_header, clear_header, mm_is_valid_ptr, mm_alloc_ptr, mm_set_ptr_flags, mm_get_ptr_flags,
  mm_free_ptr, returned, stopped, header_of,
}
use krnl.Heap.Header.{
  write_header_outside, clear_header_outside, clear_header-magic, clear_header-present,
  write_header-offset,
}

-- What a valid pointer is.
record IsHeapPtr (s : BitMap) (ptr : ℕ) : Type 0 where
  far : heap_hdr_sz < ptr
  bitmap : magic_at s.mem (ptr - heap_hdr_sz) ≡ bitmap_magic
  magic : magic_of s.mem (ptr - info_bytes) ≡ heap_magic
  present : present_of s.mem (ptr - info_bytes) ≡ true

valid_of_check : (s : BitMap) (ptr : ℕ) → mm_is_valid_ptr s ptr ≡ true → IsHeapPtr s ptr
unfolding mm_is_valid_ptr
valid_of_check s ptr e = ground (arith, (mm_is_bitmap_iff s (ptr - heap_hdr_sz)).0)

check_of_valid : (s : BitMap) (ptr : ℕ) → IsHeapPtr s ptr → mm_is_valid_ptr s ptr ≡ true
unfolding mm_is_valid_ptr
check_of_valid s ptr v =
    ground (arith, (mm_is_bitmap_iff s (ptr - heap_hdr_sz)).1 (omega arith, v.bitmap))

-- The state after a block is released.
abbrev released : BitMap → ℕ → BitMap
released s ptr =
    (mm_free_bitmap (record s { mem = clear_header s.mem (ptr - info_bytes) })
      (ptr - heap_hdr_sz)).1

free_valid :
    (s : BitMap) (ptr : ℕ)
    → IsHeapPtr s ptr
    → mm_free_ptr s ptr ≡ returned error_success (released s ptr)
unfolding mm_free_ptr
free_valid s ptr v =
    ground (arith, (mm_is_bitmap_iff s (ptr - heap_hdr_sz)).1 (omega arith, v.bitmap))

-- What a released block still shows.
released_mem :
    (s : BitMap) (ptr b : ℕ)
    → IsHeapPtr s ptr
    → ptr - heap_hdr_sz ≤ b
    → (released s ptr).mem b ≡ clear_header s.mem (ptr - info_bytes) b
released_mem s ptr b v low = mm_free_bitmap_outside _ (ptr - heap_hdr_sz) b (inr low)

released-present :
    (s : BitMap) (ptr : ℕ)
    → IsHeapPtr s ptr
    → present_of (released s ptr).mem (ptr - info_bytes) ≡ false
released-present s ptr v =
    ap (λ x. not (x % 2 == 0)) (released_mem s ptr (ptr - info_bytes + 3) v (omega (arith, v.far)))
    ∙ clear_header-present s.mem (ptr - info_bytes)

released-magic :
    (s : BitMap) (ptr : ℕ)
    → IsHeapPtr s ptr
    → magic_of (released s ptr).mem (ptr - info_bytes) ≡ heap_magic
released-magic s ptr v =
    load_bytes_cong (released s ptr).mem (clear_header s.mem (ptr - info_bytes)) (ptr - info_bytes)
      3 (λ b low high. released_mem s ptr b v (omega arith))
    ∙ clear_header-magic s.mem (ptr - info_bytes)
    ∙ v.magic

released-bitmap :
    (s : BitMap) (ptr : ℕ)
    → IsHeapPtr s ptr
    → magic_at (released s ptr).mem (ptr - heap_hdr_sz) ≡ bitmap_magic
released-bitmap s ptr v =
    load64_cong (released s ptr).mem s.mem (ptr - heap_hdr_sz) (λ b low high.
      released_mem s ptr b v low
      ∙ clear_header_outside s.mem (ptr - info_bytes) b (inl (omega (arith, v.far))))
    ∙ v.bitmap

free_again :
    (t : BitMap) (ptr : ℕ)
    → heap_hdr_sz < ptr
    → magic_at t.mem (ptr - heap_hdr_sz) ≡ bitmap_magic
    → magic_of t.mem (ptr - info_bytes) ≡ heap_magic
    → present_of t.mem (ptr - info_bytes) ≡ false
    → (mm_free_ptr t ptr ≡ stopped) × (mm_is_valid_ptr t ptr ≡ false)
unfolding mm_free_ptr mm_is_valid_ptr
free_again t ptr far bitmap magic gone =
    let known = (mm_is_bitmap_iff t (ptr - heap_hdr_sz)).1 (omega arith, bitmap) in
    (ground arith, ground arith)

-- A valid heap pointer is released once: `mm_free_ptr` returns success, the pointer is no longer
-- valid, and a second release of it stops the kernel.
pub mm_free_ptr_once :
    (s : BitMap) (ptr : ℕ)
    → mm_is_valid_ptr s ptr ≡ true
    → (t : BitMap) × (mm_free_ptr s ptr ≡ returned error_success t)
      × (mm_free_ptr t ptr ≡ stopped)
      × (mm_is_valid_ptr t ptr ≡ false)
mm_free_ptr_once s ptr e =
    let v = valid_of_check s ptr e in
    let again =
      free_again (released s ptr) ptr v.far (released-bitmap s ptr v) (released-magic s ptr v)
        (released-present s ptr v) in
    (released s ptr, free_valid s ptr v, again.0, again.1)

-- The flags of a valid heap pointer are read back as they were set, cut to 16 bits, and the pointer
-- stays valid.
get_ptr_flags-set_ptr_flags :
    (s : BitMap) (ptr flags : ℕ)
    → mm_is_valid_ptr s ptr ≡ true
    → ptr < 2 ^ 64
    → let r = mm_set_ptr_flags s ptr flags in
      (r.0 ≡ error_success)
      × (mm_get_ptr_flags r.1 ptr ≡ flags % 2 ^ 16)
      × (mm_is_valid_ptr r.1 ptr ≡ true)
unfolding mm_set_ptr_flags mm_get_ptr_flags
get_ptr_flags-set_ptr_flags s ptr flags e fits =
    let v = valid_of_check s ptr e in
    let h : ℕ = ptr - info_bytes in
    let m : Memory = store_bytes s.mem (h + 8) 2 flags in
    let t : BitMap = record s { mem = m } in
    let here : header_of ptr ≡ h = omega (arith, v.far) in
    let done : mm_set_ptr_flags s ptr flags ≡ (error_success, t) =
      ground (arith, (mm_is_bitmap_iff s (ptr - heap_hdr_sz)).1 (omega (arith, v.far), v.bitmap)) in
    let still : IsHeapPtr t ptr = record {
      far = v.far;
      bitmap =
          load64_cong m s.mem (ptr - heap_hdr_sz)
            (λ b low high. store_bytes_outside s.mem (h + 8) 2 flags b (inl (omega (arith, v.far))))
          ∙ v.bitmap;
      magic = load_bytes-store_bytes_apart s.mem (h + 8) 2 flags h 3 (inl (omega arith)) ∙ v.magic;
      present =
          ap (λ x. not (x % 2 == 0))
            (store_bytes_outside s.mem (h + 8) 2 flags (h + 3) (inl (omega arith)))
          ∙ v.present;
    } in
    rw done (
      refl,
      rw (here, not_zero h (omega (arith, v.far))) (load_bytes-store_bytes_two s.mem (h + 8) flags),
      check_of_valid t ptr still,
    )
  where
    not_zero : (x : ℕ) → 0 < x → (x == 0) ≡ false
    not_zero x p = ground arith

refuse :
    (t : BitMap) (p : ℕ)
    → magic_at t.mem p ≢ bitmap_magic
    → (mm_is_valid_ptr t (p + heap_hdr_sz) ≡ false)
      × (mm_free_ptr t (p + heap_hdr_sz) ≡ returned error_heap_not_present t)
unfolding mm_is_valid_ptr mm_free_ptr
refuse t p plain = elim (Bool-cases (mm_is_bitmap t (p + heap_hdr_sz - heap_hdr_sz))) [
  | inl known ↦ absurd (plain (ap (magic_at t.mem) back ∙ ((mm_is_bitmap_iff t _).0 known).1))
  | inr unknown ↦ (ground arith, ground arith)
]
  where
    back : p ≡ p + heap_hdr_sz - heap_hdr_sz
    back = omega arith

-- A block that was just allocated is not valid to the heap: the magic of the block allocator is
-- looked for two headers below the pointer, where the block's contents begin, and not in front of
-- them. Unless the contents happened to begin with that magic, the pointer that `mm_alloc_ptr`
-- returns fails `mm_is_valid_ptr`, and `mm_free_ptr` refuses it and releases nothing.
pub free_ptr-alloc_ptr_refused :
    (align fuel : ℕ) (s : BitMap) (start sz : ℕ) (wr user : Bool) (pad : ℕ) (bs : List Block)
    → 0 < sz
    → sz + heap_hdr_sz ≤ bitmap_max_sz
    → sz + heap_hdr_sz + pad < 2 ^ 64
    → Arena align s.mem (start + s.cursor) bs
    → length bs < fuel
    → first_free align (start + s.cursor) bs + 92 < 2 ^ 64
    → magic_at s.mem (first_free align (start + s.cursor) bs + header_bytes) ≢ bitmap_magic
    → let ptr = first_free align (start + s.cursor) bs + header_bytes + heap_hdr_sz in
      (t : BitMap) × (mm_alloc_ptr align fuel s start sz wr user pad ≡ some (ptr, t))
      × (mm_is_valid_ptr t ptr ≡ false)
      × (mm_free_ptr t ptr ≡ returned error_heap_not_present t)
free_ptr-alloc_ptr_refused align fuel s start sz wr user pad bs pos max fits ar enough top plain =
    (t, allocated, refused.0, refused.1)
  where
    a : ℕ
    a = first_free align (start + s.cursor) bs

    got :
        (u : BitMap) × (mm_alloc_bitmap align fuel s start (sz + heap_hdr_sz) false pad
          ≡ some (a + header_bytes, u))
        × Placed align s u a (sz + heap_hdr_sz + pad)
    got =
        mm_alloc_bitmap-first_free align fuel s start (sz + heap_hdr_sz) pad bs (omega arith) max
          fits ar enough

    h : ℕ
    h = a + header_bytes + info_bytes

    m : Memory
    m = write_header got.0.mem h (sz + heap_hdr_sz) wr user pad

    t : BitMap
    t = record (got.0) { mem = m }

    allocated :
        mm_alloc_ptr align fuel s start sz wr user pad ≡ some (a + header_bytes + heap_hdr_sz, t)
    allocated =
        unfold mm_alloc_ptr in
        ground (
          arith,
          got.1,
          write_header-offset got.0.mem h (sz + heap_hdr_sz) wr user pad (omega arith),
        )

    same : magic_at m (a + header_bytes) ≡ magic_at s.mem (a + header_bytes)
    same = load64_cong m s.mem (a + header_bytes) λ b low high.
        write_header_outside got.0.mem h (sz + heap_hdr_sz) wr user pad b (inl (omega arith))
        ∙ got.2.outside b (inr (omega arith))

    refused :
        (mm_is_valid_ptr t (a + header_bytes + heap_hdr_sz) ≡ false)
        × (mm_free_ptr t (a + header_bytes + heap_hdr_sz) ≡ returned error_heap_not_present t)
    refused = refuse t (a + header_bytes) (λ e. plain (sym same ∙ e))

-- A request that the block allocator is too small for is not refused: no block is found, the header
-- is written at address 34 all the same, and address 68 is returned as if it were a block.
pub alloc_ptr_too_large :
    (align fuel : ℕ) (s : BitMap) (start sz : ℕ) (wr user : Bool) (pad : ℕ)
    → bitmap_max_sz < sz + heap_hdr_sz
    → sz + heap_hdr_sz < 2 ^ 64
    → (t : BitMap) × (mm_alloc_ptr align fuel s start sz wr user pad ≡ some (heap_hdr_sz, t))
      × (t.mem ≡ write_header s.mem info_bytes (sz + heap_hdr_sz) wr user pad)
unfolding mm_alloc_ptr
alloc_ptr_too_large align fuel s start sz wr user pad large fits = (
  record s { mem = write_header s.mem info_bytes (sz + heap_hdr_sz) wr user pad },
  ground (
    arith,
    alloc_bitmap_too_large align fuel s start (sz + heap_hdr_sz) pad large,
    write_header-offset s.mem info_bytes (sz + heap_hdr_sz) wr user pad,
  ),
  refl,
)
