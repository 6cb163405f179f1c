-- ===== src/Physical/Live.antt =====
-- What the frame allocator does to the frames that are in use.
use krnl.Base.{
  ℕ, ◌+◌, ◌-◌, ◌%◌, ◌^◌, ◌≤◌, ◌<◌, ◌≡◌, ◌≢◌, ◌⊎◌, inl, inr, refl, sym, ap, subst, arith, List, [],
  ◌∷◌, All,
}
use krnl.Base.Memory.{Memory, load64, store64, load64-store64_self, store64_outside}
use krnl.Physical.{Pmm, page_size, word_mod, pmmi_alloc_frame, pmmi_free_frame, hand_out}
use krnl.Physical.Chain.{Chain, IsFrame, Chain-store64}
use krnl.Physical.Refinement.{
  Represents, IsLive, alloc_listed, alloc_fresh, alloc_empty, room_cases, listed_Represents,
}

-- What freeing a frame in use computes.
abbrev freed : Pmm → ℕ → Pmm
freed p f = record p {
  mem = store64 p.mem f p.free_head;
  free_head = f;
  free = (p.free + 1) % word_mod;
  used = (p.used + word_mod - 1) % word_mod;
}

free_live :
    (p : Pmm) (f : ℕ) → 0 < p.base → IsFrame p.base p.cursor f → pmmi_free_frame p f ≡ freed p f
unfolding pmmi_free_frame
free_live p f pos l = ground arith

head_lt :
    (m : Memory) (head : ℕ) (fs : List ℕ)
    → Chain m head fs
    → (base cursor : ℕ) → cursor < 2 ^ 64
    → All (IsFrame base cursor) fs
    → head < 2 ^ 64
head_lt m head [] c base cursor h fr = omega arith
head_lt m head (f ∷ fs) c base cursor h fr = omega (arith, c.0, fr.0.below)

ne_sym : {a b : ℕ} → a ≢ b → b ≢ a
ne_sym h e = h (sym e)

-- A frame in use that is given back goes on top of the free list, and of the bytes of memory only
-- the eight that hold the link can change.
pub pmmi_free_frame-Represents :
    (p : Pmm) (fs : List ℕ) (f : ℕ)
    → Represents p fs
    → IsLive p fs f
    → 0 < p.used
    → Represents (pmmi_free_frame p f) (f ∷ fs)
      × ((a : ℕ) → (a + 1 ≤ f) ⊎ (f + 8 ≤ a) → (pmmi_free_frame p f).mem a ≡ p.mem a)
pmmi_free_frame-Represents p fs f r l some_used = rw (free_live p f r.base_pos l.frame) (
  record {
    base_pos = r.base_pos;
    base_le = r.base_le;
    cursor_le = r.cursor_le;
    end_lt = r.end_lt;
    base_aligned = r.base_aligned;
    cursor_aligned = r.cursor_aligned;
    end_aligned = r.end_aligned;
    chain = (
      refl,
      rw
          (load64-store64_self p.mem f p.free_head
            (head_lt p.mem p.free_head fs r.chain p.base p.cursor (omega arith) r.frames))
          (Chain-store64 p.base p.cursor p.mem f p.free_head p.free_head fs l.frame.aligned r.frames
            l.not_free r.chain),
    );
    frames = (l.frame, r.frames);
    distinct = (l.not_free, r.distinct);
    free_count = omega arith;
    used_count = omega arith;
  },
  λ a away. store64_outside p.mem f p.free_head a away,
)

-- An address that is no frame in use is refused: null, one that is not page-aligned, and one that
-- lies below the region or at or above the cursor change nothing.
pub pmmi_free_frame-refused :
    (p : Pmm) (f : ℕ)
    → (f ≡ 0) ⊎ ((f % page_size ≢ 0) ⊎ ((f < p.base) ⊎ (p.cursor ≤ f)))
    → pmmi_free_frame p f ≡ p
unfolding pmmi_free_frame
pmmi_free_frame-refused p f h = ground arith

-- A frame that is given back is the next one to be handed out, the free list is then as before, and
-- so are both counters.
pub alloc_frame-free_frame :
    (p : Pmm) (fs : List ℕ) (f : ℕ)
    → Represents p fs
    → IsLive p fs f
    → 0 < p.used
    → let r = pmmi_alloc_frame (pmmi_free_frame p f) in
      (r.0 ≡ f) × Represents r.1 fs × (r.1.free ≡ p.free) × (r.1.used ≡ p.used)
unfolding hand_out
alloc_frame-free_frame p fs f r l some_used =
    let after : Represents (freed p f) (f ∷ fs) =
      subst (λ q. Represents q (f ∷ fs)) (free_live p f r.base_pos l.frame)
        (pmmi_free_frame-Represents p fs f r l some_used).0 in
    rw
      (
        free_live p f r.base_pos l.frame,
        alloc_listed (freed p f) f refl (omega (arith, r.base_pos, l.frame.above)),
      )
      (
        refl,
        listed_Represents (freed p f) f fs after,
        omega (arith, r.free_count, r.used_count, r.end_lt),
        omega (arith, r.free_count, r.used_count, r.end_lt),
      )

-- The bytes of a frame in use survive every allocation, which hands out another frame.
pub pmmi_alloc_frame-keeps_live :
    (p : Pmm) (fs : List ℕ) (g : ℕ)
    → Represents p fs
    → IsLive p fs g
    → ((pmmi_alloc_frame p).0 ≢ g)
      × ((a : ℕ) → g ≤ a → a < g + page_size → (pmmi_alloc_frame p).1.mem a ≡ p.mem a)
unfolding hand_out
pmmi_alloc_frame-keeps_live p (f ∷ fs) g r l =
    rw (alloc_listed p f r.chain.0 (ground arith)) (
      l.not_free.0,
      λ a low high. ground (arith, l.frame.aligned, r.frames.0.aligned, l.not_free.0),
    )
pmmi_alloc_frame-keeps_live p [] g r l = elim (room_cases p.cursor p.end) [
  | inl room ↦
      rw (alloc_fresh p r.chain (omega arith) room (omega arith))
        (omega (arith, l.frame.below), λ a low high. ground (arith, l.frame.below, l.frame.aligned))
  | inr full ↦ rw (alloc_empty p r.chain full) (omega (arith, l.frame.above), λ a low high. refl)
]

-- A frame that is handed out holds only zeros.
pub pmmi_alloc_frame-zeroed :
    (p : Pmm) (a : ℕ)
    → (pmmi_alloc_frame p).0 ≢ 0
    → (pmmi_alloc_frame p).0 ≤ a
    → a < (pmmi_alloc_frame p).0 + page_size
    → (pmmi_alloc_frame p).1.mem a ≡ 0
unfolding pmmi_alloc_frame hand_out
pmmi_alloc_frame-zeroed p a got low high = ground arith

-- Nothing detects a second free: a frame in use that is given back twice in a row is handed out
-- twice in a row.
pub double_free-aliases :
    (p : Pmm) (fs : List ℕ) (f : ℕ)
    → Represents p fs
    → IsLive p fs f
    → let r = pmmi_alloc_frame (pmmi_free_frame (pmmi_free_frame p f) f) in
      (r.0 ≡ f) × ((pmmi_alloc_frame r.1).0 ≡ f)
unfolding hand_out
double_free-aliases p fs f r l =
    rw
      (
        free_live p f r.base_pos l.frame,
        free_live (freed p f) f r.base_pos l.frame,
        alloc_listed (freed (freed p f) f) f refl ne,
      )
      (refl, ap (λ (x : ℕ × Pmm). x.0) (alloc_listed (handed (freed (freed p f) f)) f link ne))
  where
    handed : Pmm → Pmm
    handed q = hand_out f (record q { free_head = load64 q.mem f })

    ne : f ≢ 0
    ne = omega (arith, r.base_pos, l.frame.above)

    link : load64 (store64 (store64 p.mem f p.free_head) f f) f ≡ f
    link = load64-store64_self _ f f (omega (arith, l.frame.below, r.cursor_le, r.end_lt))
