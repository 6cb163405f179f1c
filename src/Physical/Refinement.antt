-- ===== src/Physical/Refinement.antt =====
-- The frame allocator of HalPhysicalMemory.cpp against a stack of free frames and a range of frames
-- that nobody has touched yet.
use krnl.Base.{
  ℕ, ◌+◌, ◌-◌, ◌*◌, ◌/◌, ◌%◌, ◌^◌, ◌≤◌, ◌<◌, ◌≡◌, ◌≢◌, ◌⊎◌, inl, inr, refl, arith, List, [], ◌∷◌,
  All, length, false, leb,
}
use krnl.Base.Memory.{load64}
use krnl.Physical.{
  Pmm, page_size, word_mod, align_down, pmmi_init, pick_frame, hand_out, pmmi_alloc_frame,
}
use krnl.Physical.Chain.{Chain, IsAligned, IsFrame, Apart, Distinct, Chain-fill}

-- The allocator stands for the free list `fs`: the region is whole pages, the list lies in memory,
-- each of its frames is a frame below the cursor and is listed once, and the counters count.
pub record Represents (p : Pmm) (fs : List ℕ) : Type 0 where
  pub base_pos : 0 < p.base
  pub base_le : p.base ≤ p.cursor
  pub cursor_le : p.cursor ≤ p.end
  pub end_lt : p.end < 2 ^ 64
  pub base_aligned : IsAligned p.base
  pub cursor_aligned : IsAligned p.cursor
  pub end_aligned : IsAligned p.end
  pub chain : Chain p.mem p.free_head fs
  pub frames : All (IsFrame p.base p.cursor) fs
  pub distinct : Distinct fs
  pub free_count : p.free ≡ length fs + (p.end - p.cursor) / page_size
  pub used_count : p.used + length fs ≡ (p.cursor - p.base) / page_size

-- A frame that is handed out: a frame of the region that was taken and is not free.
pub record IsLive (p : Pmm) (fs : List ℕ) (f : ℕ) : Type 0 where
  pub frame : IsFrame p.base p.cursor f
  pub not_free : Apart f fs

-- A region that holds at least one whole page is taken over with no frame in use: the frames are
-- those between the first page boundary and the last one.
pub pmmi_init-Represents :
    (p : Pmm) (base sz : ℕ)
    → 0 < base
    → base + sz + page_size ≤ 2 ^ 64
    → align_down (base + (page_size - 1)) < align_down (base + sz)
    → Represents (pmmi_init p base sz) []
      × ((pmmi_init p base sz).free * page_size
          ≡ align_down (base + sz) - align_down (base + (page_size - 1)))
      × ((pmmi_init p base sz).used ≡ 0)
unfolding pmmi_init
pmmi_init-Represents p base sz pos fits room =
    let low : (base + (page_size - 1)) % word_mod ≡ base + (page_size - 1) = omega arith in
    let high : (base + sz) % word_mod ≡ base + sz = omega arith in
    let some_room : leb (align_down (base + sz)) (align_down (base + (page_size - 1))) ≡ false =
      ground arith in
    rw (low, high, some_room)
      (
        record {
          base_pos = omega arith;
          base_le = omega arith;
          cursor_le = omega arith;
          end_lt = omega arith;
          base_aligned = omega arith;
          cursor_aligned = omega arith;
          end_aligned = omega arith;
          chain = refl;
          frames = tt;
          distinct = tt;
          free_count = omega arith;
          used_count = omega arith;
        },
        omega arith,
        refl,
      )

-- What the three branches of an allocation compute.
pub alloc_listed :
    (p : Pmm) (f : ℕ)
    → p.free_head ≡ f
    → f ≢ 0
    → pmmi_alloc_frame p ≡ (f, hand_out f (record p { free_head = load64 p.mem f }))
unfolding pmmi_alloc_frame pick_frame
alloc_listed p f e ne = ground arith

pub alloc_fresh :
    (p : Pmm)
    → p.free_head ≡ 0
    → 0 < p.cursor
    → p.cursor < p.end
    → p.cursor + page_size < 2 ^ 64
    → pmmi_alloc_frame p
      ≡ (p.cursor, hand_out p.cursor (record p { cursor = p.cursor + page_size }))
unfolding pmmi_alloc_frame pick_frame
alloc_fresh p e pos room fits = ground arith

pub alloc_empty : (p : Pmm) → p.free_head ≡ 0 → p.end ≤ p.cursor → pmmi_alloc_frame p ≡ (0, p)
unfolding pmmi_alloc_frame pick_frame
alloc_empty p e full = ground arith

module _ (p : Pmm) where
  pub listed_Represents :
      (f : ℕ) (fs : List ℕ)
      → Represents p (f ∷ fs)
      → Represents (hand_out f (record p { free_head = load64 p.mem f })) fs
  unfolding hand_out
  listed_Represents f fs r = record {
    base_pos = r.base_pos;
    base_le = r.base_le;
    cursor_le = r.cursor_le;
    end_lt = r.end_lt;
    base_aligned = r.base_aligned;
    cursor_aligned = r.cursor_aligned;
    end_aligned = r.end_aligned;
    chain =
        Chain-fill p.base p.cursor p.mem f 0 (load64 p.mem f) fs r.frames.0.aligned r.frames.1
          r.distinct.0 r.chain.1;
    frames = r.frames.1;
    distinct = r.distinct.1;
    free_count = omega arith;
    used_count = omega arith;
  }

  fresh_Represents :
      Represents p []
      → p.cursor < p.end
      → Represents (hand_out p.cursor (record p { cursor = p.cursor + page_size })) []
  unfolding hand_out
  fresh_Represents r room = record {
    base_pos = r.base_pos;
    base_le = omega arith;
    cursor_le = omega arith;
    end_lt = r.end_lt;
    base_aligned = r.base_aligned;
    cursor_aligned = omega arith;
    end_aligned = r.end_aligned;
    chain = r.chain;
    frames = tt;
    distinct = tt;
    free_count = omega arith;
    used_count = omega arith;
  }

-- An allocation on the abstract side: the top of the free list, else the next untouched frame, else
-- nothing.
abbrev pub AllocSpec : Pmm → List ℕ → ℕ × Pmm → Type 0
AllocSpec p (f ∷ fs) r = (r.0 ≡ f) × (r.1.cursor ≡ p.cursor) × Represents r.1 fs
AllocSpec p [] r =
    ((p.cursor < p.end)
      × (r.0 ≡ p.cursor)
      × (r.1.cursor ≡ p.cursor + page_size)
      × Represents r.1 [])
    ⊎ ((p.end ≤ p.cursor) × (r ≡ (0, p)))

pub room_cases : (a b : ℕ) → (a < b) ⊎ (b ≤ a)
room_cases a b = grind arith

-- From a state that stands for a free list, `pmmi_alloc_frame` pops the list; from an empty list it
-- takes the frame at the cursor; and from a region that is used up it returns 0 and changes
-- nothing. The state after it stands for what is left.
pub pmmi_alloc_frame-AllocSpec :
    (p : Pmm) (fs : List ℕ) → Represents p fs → AllocSpec p fs (pmmi_alloc_frame p)
pmmi_alloc_frame-AllocSpec p (f ∷ fs) r =
    rw (alloc_listed p f r.chain.0 (ground arith))
      (refl, unfold hand_out in refl, listed_Represents p f fs r)
pmmi_alloc_frame-AllocSpec p [] r = elim (room_cases p.cursor p.end) [
  | inl room ↦
      rw (alloc_fresh p r.chain (omega arith) room (omega arith))
        (inl (room, refl, unfold hand_out in refl, fresh_Represents p r room))
  | inr full ↦ inr (full, alloc_empty p r.chain full)
]
