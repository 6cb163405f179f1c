-- ===== src/Heap.antt =====
-- The kernel heap of private/minkernel/src/HeapMgr.cpp, and the page manager of
-- private/minkernel/src/PageMgr.cpp that it asks for blocks. A heap block begins with two headers
-- of 34 bytes; the second is the packed MM_INFORMATION_BLOCK, laid out in byte memory: magic at 0
-- (3 bytes), the four one-bit flags at 3, CRC at 4, flags at 8 (2 bytes), size at 10, offset at 18,
-- pad at 26 (4 bytes), padding at 30. The spin on `kAllocationLocked` is not modelled.
pub mod Header
pub mod Lifetime
use krnl.Base.{
  ℕ, ◌+◌, ◌-◌, ◌*◌, ◌/◌, ◌%◌, ◌^◌, Bool, true, false, not, ◌&&◌, Option, none, some, leb, ◌==◌,
  if◌then◌else◌,
}
use krnl.Base.Memory.{Memory, store8, fill}
use krnl.Base.Words.{load_bytes, store_bytes}
use krnl.Bitmap.{BitMap, mm_alloc_bitmap, mm_is_bitmap, mm_free_bitmap}
use krnl.Crc.{calculate_crc32}

abbrev pub heap_magic : ℕ
heap_magic = 0xd4d75

-- `sizeof(MM_INFORMATION_BLOCK)`.
abbrev pub info_bytes : ℕ
info_bytes = 34

-- `kHeapMgrHdrSz`.
abbrev pub heap_hdr_sz : ℕ
heap_hdr_sz = info_bytes * 2

abbrev pub error_success : ℕ
error_success = 0

abbrev pub error_heap_not_present : ℕ
error_heap_not_present = 52

abbrev pub bit_of : Bool → ℕ
bit_of b = if b then 1 else 0

-- One bit of a byte written.
abbrev pub put_bit : ℕ → ℕ → Bool → ℕ
put_bit v k b = v % 256 - v / k % 2 * k + bit_of b * k

-- The header's fields.
abbrev pub magic_of : Memory → ℕ → ℕ
magic_of m h = load_bytes m h 3

abbrev pub present_of : Memory → ℕ → Bool
present_of m h = not (m (h + 3) % 2 == 0)

abbrev pub put_present : Memory → ℕ → Bool → Memory
put_present m h b = store8 m (h + 3) (put_bit (m (h + 3)) 1 b)

abbrev pub put_write_read : Memory → ℕ → Bool → Memory
put_write_read m h b = store8 m (h + 3) (put_bit (m (h + 3)) 2 b)

abbrev pub put_user : Memory → ℕ → Bool → Memory
put_user m h b = store8 m (h + 3) (put_bit (m (h + 3)) 4 b)

abbrev pub put_page : Memory → ℕ → Bool → Memory
put_page m h b = store8 m (h + 3) (put_bit (m (h + 3)) 8 b)

-- `PTEWrapper`, as far as the heap looks at it.
pub record PteWrapper : Type 0 where
  pub rw : Bool
  pub user : Bool
  pub exec_disable : Bool
  pub virt_addr : ℕ

-- `PageMgr::Request`.
pub request : ℕ → ℕ → BitMap → ℕ → Bool → Bool → Bool → ℕ → ℕ → Option (PteWrapper × BitMap)
request align fuel s start rw user exec_disable sz pad =
    elim (mm_alloc_bitmap align fuel s start sz false pad) [
      | none ↦ none
      | some (ptr, t) ↦
          some (record { rw = rw; user = user; exec_disable = exec_disable; virt_addr = ptr }, t)
    ]

-- `PageMgr::Free`.
pub page_free : BitMap → PteWrapper → Bool × BitMap
page_free s wrapper = mm_free_bitmap s wrapper.virt_addr

-- `Detail::mm_check_ptr_address`.
unfoldable pub check_ptr_address : BitMap → ℕ → Bool
check_ptr_address s ptr =
    if ptr == 0
    then false
    else if leb ptr heap_hdr_sz
    then false
    else if not (mm_is_bitmap s (ptr - heap_hdr_sz))
    then false
    else (magic_of s.mem (ptr - info_bytes) == heap_magic) && present_of s.mem (ptr - info_bytes)

unfoldable pub mm_is_valid_ptr : BitMap → ℕ → Bool
unfolding check_ptr_address
mm_is_valid_ptr s ptr = check_ptr_address s ptr

-- The header that `mm_alloc_ptr` writes at `h`, field by field.
pub write_header : Memory → ℕ → ℕ → Bool → Bool → ℕ → Memory
write_header m h sz_fix wr user pad =
    let m = store_bytes m (h + 10) 8 sz_fix in
    let m = store_bytes m h 3 heap_magic in
    let m = store_bytes m (h + 4) 4 0 in
    let m = store_bytes m (h + 18) 8 (h + info_bytes) in
    let m = put_page m h false in
    let m = put_write_read m h wr in
    let m = put_user m h user in
    let m = put_present m h true in let m = store_bytes m (h + 26) 4 pad in fill m (h + 30) 0 4

-- `none` when the walk over the blocks runs out of fuel. The sum of the sizes wraps.
pub mm_alloc_ptr : ℕ → ℕ → BitMap → ℕ → ℕ → Bool → Bool → ℕ → Option (ℕ × BitMap)
unfolding request
mm_alloc_ptr align fuel s start sz wr user pad =
    if sz == 0
    then some (0, s)
    else (let sz_fix = (sz + heap_hdr_sz) % 2 ^ 64 in
        elim (request align fuel s start wr user false sz_fix pad) [
          | none ↦ none
          | some (wrapper, t) ↦
              (let h = wrapper.virt_addr + info_bytes in
                let m = write_header t.mem h sz_fix wr user pad in
                some (load_bytes m (h + 18) 8, record t { mem = m }))
        ])

unfoldable pub mm_ctl_page : BitMap → ℕ → Bool → ℕ × BitMap
unfolding check_ptr_address
mm_ctl_page s ptr enable =
    if not (check_ptr_address s ptr)
    then (error_heap_not_present, s)
    else (error_success, record s { mem = put_page s.mem (ptr - info_bytes) enable })

-- `fFlags` has 16 bits; the argument has 64.
pub mm_set_ptr_flags : BitMap → ℕ → ℕ → ℕ × BitMap
unfolding check_ptr_address
mm_set_ptr_flags s ptr flags =
    if not (check_ptr_address s ptr)
    then (error_heap_not_present, s)
    else (error_success, record s { mem = store_bytes s.mem (ptr - info_bytes + 8) 2 flags })

-- The address of the header, where a pointer has not been checked: the subtraction wraps.
abbrev pub header_of : ℕ → ℕ
header_of ptr = (ptr + (2 ^ 64 - info_bytes)) % 2 ^ 64

-- No check but that of the header's address against null.
pub mm_get_ptr_flags : BitMap → ℕ → ℕ
mm_get_ptr_flags s ptr =
    if header_of ptr == 0 then error_heap_not_present else load_bytes s.mem (header_of ptr + 8) 2

-- A call returns a code, or stops the kernel.
pub data Outcome : Type 0 where
  returned : ℕ → BitMap → Outcome
  stopped : Outcome

-- The fields that `mm_free_ptr` clears, in its order.
pub clear_header : Memory → ℕ → Memory
clear_header m h =
    let m = store_bytes m (h + 10) 8 0 in
    let m = put_present m h false in
    let m = store_bytes m (h + 18) 8 0 in
    let m = store_bytes m (h + 4) 4 0 in
    let m = put_write_read m h false in let m = put_user m h false in store_bytes m (h + 26) 4 0

-- The result of the page manager is dropped.
pub mm_free_ptr : BitMap → ℕ → Outcome
unfolding clear_header page_free
mm_free_ptr s ptr =
    if ptr == 0
    then returned error_heap_not_present s
    else if leb ptr heap_hdr_sz
    then returned error_heap_not_present s
    else if not (mm_is_bitmap s (ptr - heap_hdr_sz))
    then returned error_heap_not_present s
    else if not (magic_of s.mem (ptr - info_bytes) == heap_magic)
    then returned error_heap_not_present s
    else if not (present_of s.mem (ptr - info_bytes))
    then stopped
    else (let t : BitMap = record s { mem = clear_header s.mem (ptr - info_bytes) } in
        let wrapper : PteWrapper = record {
          rw = false;
          user = false;
          exec_disable = false;
          virt_addr = ptr - heap_hdr_sz;
        } in
        returned error_success (page_free t wrapper).1)

unfoldable pub mm_protect_ptr : BitMap → ℕ → Bool × BitMap
mm_protect_ptr s ptr =
    if ptr == 0
    then (false, s)
    else if not (header_of ptr == 0)
        && present_of s.mem (header_of ptr)
        && (heap_magic == magic_of s.mem (header_of ptr))
    then (
      true,
      record s {
        mem =
            store_bytes s.mem (header_of ptr + 4) 4
              (calculate_crc32 s.mem (header_of ptr) info_bytes);
      },
    )
    else (false, s)
