-- ===== src/Bitmap/Release.antt =====
-- Giving a block back, and what the layout of the blocks allows.
use krnl.Base.{
  ◌↔◌, ℕ, ◌+◌, ◌-◌, ◌^◌, ◌≤◌, ◌<◌, ◌≡◌, ◌≢◌, ◌⊎◌, inl, inr, refl, sym, ap, ◌∙◌, List, [], length,
  true, false, some, leb, if◌then◌else◌, arith,
}
use krnl.Base.Memory.{
  store64, load64-store64_self, load64-store64_apart, store64_outside, load64_cong,
}
use krnl.Bitmap.{
  BitMap, find_bitmap, mm_is_bitmap, bitmap_magic, bitmap_max_sz, header_bytes, magic_at, size_at,
  used_at, mm_alloc_bitmap, mm_free_bitmap,
}
use mathlib.Core.Option.{some_inj}
use krnl.Bitmap.Walk.{Block, Arena, first_free, mm_alloc_bitmap-first_free}

-- `mm_free_bitmap` looks for the magic at the pointer itself, before it steps back to the header. So
-- a block that was just allocated cannot be given back: its pointer is refused and nothing changes,
-- unless the first word of its contents happened to be the magic already.
pub free-alloc_refused :
    (align fuel : ℕ) (s : BitMap) (start size pad : ℕ) (bs : List Block)
    → 0 < size
    → size ≤ bitmap_max_sz
    → size + pad < 2 ^ 64
    → Arena align s.mem (start + s.cursor) bs
    → length bs < fuel
    → magic_at s.mem (first_free align (start + s.cursor) bs + header_bytes) ≢ bitmap_magic
    → let ptr = first_free align (start + s.cursor) bs + header_bytes in
      (t : BitMap) × (mm_alloc_bitmap align fuel s start size false pad ≡ some (ptr, t))
      × (mm_free_bitmap t ptr ≡ (false, t))
unfolding mm_free_bitmap
free-alloc_refused align fuel s start size pad bs pos max fits ar enough plain =
    let got = mm_alloc_bitmap-first_free align fuel s start size pad bs pos max fits ar enough in
    let ptr = first_free align (start + s.cursor) bs + header_bytes in
    let same : magic_at got.0.mem ptr ≡ magic_at s.mem ptr =
      load64_cong got.0.mem s.mem ptr (λ b low high. got.2.outside b (inr (omega arith))) in
    (got.0, got.1, refused got.0 ptr (λ e. plain (sym same ∙ e)))
  where
    refused :
        (t : BitMap) (ptr : ℕ)
        → magic_at t.mem ptr ≢ bitmap_magic
        → mm_free_bitmap t ptr ≡ (false, t)
    refused t ptr h = ground arith

-- A pointer with the magic both at itself and at the header before it is released: the header loses
-- the used mark and nothing else, so it keeps its magic and its size.
mm_free_bitmap_released :
    (s : BitMap) (ptr : ℕ)
    → header_bytes < ptr
    → magic_at s.mem ptr ≡ bitmap_magic
    → magic_at s.mem (ptr - header_bytes) ≡ bitmap_magic
    → let r = mm_free_bitmap s ptr in
      let block = ptr - header_bytes in
      (r.0 ≡ true)
      × (used_at r.1.mem block ≡ 0)
      × (magic_at r.1.mem block ≡ bitmap_magic)
      × (size_at r.1.mem block ≡ size_at s.mem block)
      × ((b : ℕ) → (b + 1 ≤ block + 16) ⊎ (ptr ≤ b) → r.1.mem b ≡ s.mem b)
unfolding mm_free_bitmap
mm_free_bitmap_released s ptr far here before = rw (released) (
  refl,
  load64-store64_self s.mem (block + 16) 0 (omega arith),
  load64-store64_apart s.mem (block + 16) 0 block (inl (omega arith)) ∙ before,
  load64-store64_apart s.mem (block + 16) 0 (block + 8) (inl (omega arith)),
  λ b h. store64_outside s.mem (block + 16) 0 b (ground arith),
)
  where
    block : ℕ
    block = ptr - header_bytes

    released : mm_free_bitmap s ptr ≡ (
      true,
      record s {
        cursor =
            if leb (size_at s.mem block) s.cursor then s.cursor - size_at s.mem block else s.cursor;
        mem = store64 s.mem (block + 16) 0;
      },
    )
    released = ground arith

-- Two allocations in a row at the end of the run, with no padding. Where the alignment is less than
-- a header's 24 bytes, the second one writes its magic over the last bytes that the first handed
-- out: at `24 - align` bytes before their end.
pub second_alloc_overwrites :
    (align : ℕ) (s t u : BitMap) (start size size' p q : ℕ)
    → align < header_bytes
    → 0 < size
    → size ≤ bitmap_max_sz
    → 0 < size'
    → size' ≤ bitmap_max_sz
    → Arena align s.mem (start + s.cursor) []
    → mm_alloc_bitmap align 1 s start size false 0 ≡ some (p, t)
    → Arena align t.mem (start + t.cursor) []
    → mm_alloc_bitmap align 1 t start size' false 0 ≡ some (q, u)
    → let over = q - header_bytes in
      (over + (header_bytes - align) ≡ p + size) × (magic_at u.mem over ≡ bitmap_magic)
unfolding first_free
second_alloc_overwrites align s t u start size size' p q small pos max pos' max' ar e ar' e' =
    let first =
      mm_alloc_bitmap-first_free align 1 s start size 0 [] pos max (omega arith) ar (omega arith) in
    let second =
      mm_alloc_bitmap-first_free align 1 t start size' 0 [] pos' max' (omega arith) ar'
        (omega arith) in
    let at_p : (start + s.cursor + header_bytes, first.0) ≡ (p, t) = some_inj.0 (sym first.1 ∙ e) in
    let at_q : (start + t.cursor + header_bytes, second.0) ≡ (q, u) =
      some_inj.0 (sym second.1 ∙ e') in
    let p_is : start + s.cursor + header_bytes ≡ p = ap (λ (x : ℕ × BitMap). x.0) at_p in
    let q_is : start + t.cursor + header_bytes ≡ q = ap (λ (x : ℕ × BitMap). x.0) at_q in
    let t_cursor : t.cursor ≡ s.cursor + (size + 0) + align =
      sym (ap (λ (x : ℕ × BitMap). x.1.cursor) at_p) ∙ first.2.cursor in
    let q_block : q - header_bytes ≡ start + t.cursor = omega arith in
    (
      omega arith,
      ap (magic_at u.mem) q_block
          ∙ sym (ap (λ (x : ℕ × BitMap). magic_at x.1.mem (start + t.cursor)) at_q)
          ∙ second.2.magic,
    )

-- Which addresses pass for a block.
pub mm_is_bitmap_iff :
    (s : BitMap) (p : ℕ) → (mm_is_bitmap s p ≡ true) ↔ ((p ≢ 0) × (magic_at s.mem p ≡ bitmap_magic))
unfolding mm_is_bitmap
mm_is_bitmap_iff s p = ground arith

-- A release writes the used word before the pointer, if it writes at all.
pub mm_free_bitmap_outside :
    (s : BitMap) (p b : ℕ) → (b + 9 ≤ p) ⊎ (p ≤ b) → (mm_free_bitmap s p).1.mem b ≡ s.mem b
unfolding mm_free_bitmap
mm_free_bitmap_outside s p b h = ground (arith, store64_outside s.mem (p - header_bytes + 16) 0 b)

-- A size above the limit finds no block.
pub alloc_bitmap_too_large :
    (align fuel : ℕ) (s : BitMap) (start size pad : ℕ)
    → bitmap_max_sz < size
    → mm_alloc_bitmap align fuel s start size false pad ≡ some (0, s)
unfolding mm_alloc_bitmap find_bitmap
alloc_bitmap_too_large align fuel s start size pad large = ground arith
