-- ===== src/Bitmap/Walk.antt =====
-- Where `FindBitMap` places a block.
use krnl.Base.{
  ℕ, zero, suc, ◌+◌, ◌^◌, ◌≤◌, ◌<◌, ◌≡◌, ◌≢◌, ◌⊎◌, inl, inr, refl, ◌∙◌, Bool, Bool-cases, true,
  false, not, some, ◌==◌, if◌then◌else◌, arith, List, [], ◌∷◌, length,
}
use krnl.Base.Memory.{Memory, store64, load64-store64_self, load64-store64_apart, store64_outside}
use krnl.Bitmap.{
  BitMap, bitmap_magic, bitmap_max_sz, header_bytes, magic_at, size_at, used_at, claim, claim_fresh,
  find_loop, find_bitmap, mm_alloc_bitmap,
}

-- A block as its header describes it.
pub record Block : Type 0 where
  pub size : ℕ
  pub used : Bool

module _ (align : ℕ) where
  -- From `a` on the blocks `bs` lie one after another, and behind them a header nobody has written.
  abbrev pub Arena : Memory → ℕ → List Block → Type 0
  Arena m a [] = (magic_at m a ≢ bitmap_magic) × (used_at m a ≡ 0)
  Arena m a (b ∷ bs) =
      (magic_at m a ≡ bitmap_magic)
      × (size_at m a ≡ b.size)
      × ((used_at m a == 0) ≡ not b.used)
      × Arena m (a + b.size + align) bs

  -- First fit takes the first block that is not in use, whatever its size, or the end.
  unfoldable pub first_free : ℕ → List Block → ℕ
  first_free a [] = a
  first_free a (b ∷ bs) = if b.used then first_free (a + b.size + align) bs else a

  pub is_tail : List Block → Bool
  is_tail [] = true
  is_tail (b ∷ bs) = if b.used then is_tail bs else false

  find_loop-first_free :
      (fuel : ℕ) (s : BitMap) (a total : ℕ) (bs : List Block)
      → Arena s.mem a bs
      → length bs < fuel
      → find_loop align fuel s a total
        ≡ some (
          first_free a bs + header_bytes,
          (if is_tail bs
              then claim_fresh align s (first_free a bs) total
              else claim align s (first_free a bs) total),
        )
  unfolding find_loop first_free is_tail
  find_loop-first_free zero s a total bs ar h = absurd (omega arith)
  find_loop-first_free (suc fuel) s a total [] ar h = ground arith
  find_loop-first_free (suc fuel) s a total (b ∷ bs) ar h =
      ground (arith, find_loop-first_free fuel s (a + b.size + align) total bs ar.3)

-- The header that an allocation leaves at `a`, and what it leaves alone.
pub record Placed (align : ℕ) (s t : BitMap) (a total : ℕ) : Type 0 where
  pub magic : magic_at t.mem a ≡ bitmap_magic
  pub size : size_at t.mem a ≡ total
  pub used : used_at t.mem a ≡ 1
  pub cursor : t.cursor ≡ s.cursor + total + align
  pub outside : (b : ℕ) → (b + 1 ≤ a) ⊎ (a + header_bytes ≤ b) → t.mem b ≡ s.mem b

module _ (align : ℕ) (s : BitMap) (a total : ℕ) (fits : total < 2 ^ 64) where
  claim_fresh-Placed : Placed align s (claim_fresh align s a total) a total
  unfolding claim_fresh
  claim_fresh-Placed =
      let m1 : Memory = store64 s.mem a bitmap_magic in
      let m2 : Memory = store64 m1 (a + 8) total in
      record {
        magic =
            load64-store64_apart m2 (a + 16) 1 a (inl (omega arith))
            ∙ load64-store64_apart m1 (a + 8) total a (inl (omega arith))
            ∙ load64-store64_self s.mem a bitmap_magic (omega arith);
        size =
            load64-store64_apart m2 (a + 16) 1 (a + 8) (inl (omega arith))
            ∙ load64-store64_self m1 (a + 8) total fits;
        used = load64-store64_self m2 (a + 16) 1 (omega arith);
        cursor = refl;
        outside = λ b h. ground (
          arith,
          store64_outside m2 (a + 16) 1 b,
          store64_outside m1 (a + 8) total b,
          store64_outside s.mem a bitmap_magic b,
        );
      }

  claim-Placed : magic_at s.mem a ≡ bitmap_magic → Placed align s (claim align s a total) a total
  unfolding claim
  claim-Placed old =
      let m1 : Memory = store64 s.mem (a + 8) total in
      record {
        magic =
            load64-store64_apart m1 (a + 16) 1 a (inl (omega arith))
            ∙ load64-store64_apart s.mem (a + 8) total a (inl (omega arith))
            ∙ old;
        size =
            load64-store64_apart m1 (a + 16) 1 (a + 8) (inl (omega arith))
            ∙ load64-store64_self s.mem (a + 8) total fits;
        used = load64-store64_self m1 (a + 16) 1 (omega arith);
        cursor = refl;
        outside = λ b h.
            ground (arith, store64_outside m1 (a + 16) 1 b, store64_outside s.mem (a + 8) total b);
      }

module _ (align : ℕ) where
  first_free-magic :
      (m : Memory) (a : ℕ) (bs : List Block)
      → Arena align m a bs
      → is_tail align bs ≡ false
      → magic_at m (first_free align a bs) ≡ bitmap_magic
  unfolding first_free is_tail
  first_free-magic m a [] ar h = cc
  first_free-magic m a (b ∷ bs) ar h =
      ground (arith, first_free-magic m (a + b.size + align) bs ar.3)

  -- Over a run of blocks that starts at the cursor, with enough fuel for the walk, an allocation of
  -- an allowed size succeeds: it returns the address behind the header of the first block that is
  -- not in use, or of a new block at the end of the run; that header holds the magic, the size with
  -- its padding and the used mark, the cursor moves on, and no other byte changes.
  pub mm_alloc_bitmap-first_free :
      (fuel : ℕ) (s : BitMap) (start size pad : ℕ) (bs : List Block)
      → 0 < size
      → size ≤ bitmap_max_sz
      → size + pad < 2 ^ 64
      → Arena align s.mem (start + s.cursor) bs
      → length bs < fuel
      → let a = first_free align (start + s.cursor) bs in
        (t : BitMap) × (mm_alloc_bitmap align fuel s start size false pad
          ≡ some (a + header_bytes, t))
        × Placed align s t a (size + pad)
  unfolding mm_alloc_bitmap find_bitmap
  mm_alloc_bitmap-first_free fuel s start size pad bs pos max fits ar enough =
      elim (Bool-cases (is_tail align bs)) [
        | inl tail ↦ (
          claim_fresh align s a (size + pad),
          found ∙ ground arith,
          claim_fresh-Placed align s a (size + pad) fits,
        )
        | inr hole ↦ (
          claim align s a (size + pad),
          found ∙ ground arith,
          claim-Placed align s a (size + pad) fits
              (first_free-magic s.mem (start + s.cursor) bs ar hole),
        )
      ]
    where
      a : ℕ
      a = first_free align (start + s.cursor) bs

      found :
          find_bitmap align fuel s start size pad
          ≡ some (
            a + header_bytes,
            (if is_tail align bs
                then claim_fresh align s a (size + pad)
                else claim align s a (size + pad)),
          )
      found =
          ground
            (arith, find_loop-first_free align fuel s (start + s.cursor) (size + pad) bs ar enough)
