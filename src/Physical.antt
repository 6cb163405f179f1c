-- ===== src/Physical.antt =====
-- The physical frame allocator of private/minkernel/HALKit/Generic/HalPhysicalMemory.cpp: a bump
-- cursor over one region, and a list of freed frames threaded through the frames themselves.
-- The statics of the file are the fields of one record. The spin lock of each call is not
-- modelled: a call is one step. Counters and addresses are 64-bit words.
pub mod Chain
pub mod Refinement
pub mod Live
use krnl.Base.{
  ℕ, ◌+◌, ◌-◌, ◌*◌, ◌/◌, ◌%◌, ◌^◌, Bool, not, ◌&&◌, ◌||◌, ltb, leb, ◌==◌, if◌then◌else◌,
}
use krnl.Base.Memory.{Memory, fill, load64, store64}

abbrev pub page_size : ℕ
page_size = 0x1000

abbrev pub word_mod : ℕ
word_mod = 2 ^ 64

pub record Pmm : Type 0 where
  pub mem : Memory
  pub base : ℕ
  pub cursor : ℕ
  pub end : ℕ
  pub free_head : ℕ
  pub free : ℕ
  pub used : ℕ

-- `a & ~kPmmAlign`.
abbrev pub align_down : ℕ → ℕ
align_down a = a / page_size * page_size

pub pmmi_init : Pmm → ℕ → ℕ → Pmm
pmmi_init p base sz =
    let start = align_down ((base + (page_size - 1)) % word_mod) in
    let end = align_down ((base + sz) % word_mod) in
    if leb end start then record p { cursor = 0; end = 0 } else record p {
      base = start;
      cursor = start;
      end = end;
      free_head = 0;
      free = (end - start) / page_size;
      used = 0;
    }

-- The frame that is taken, 0 if there is none, and the list or the cursor without it.
pub pick_frame : Pmm → ℕ × Pmm
pick_frame p =
    if not (p.free_head == 0)
    then (p.free_head, record p { free_head = load64 p.mem p.free_head })
    else if not (p.cursor == 0) && ltb p.cursor p.end
    then (p.cursor, record p { cursor = (p.cursor + page_size) % word_mod })
    else (0, p)

-- `rt_set_memory(frame, 0, kPageSize)`, `--kPmmFree` and `++kPmmUsed`.
pub hand_out : ℕ → Pmm → Pmm
hand_out frame p = record p {
  mem = fill p.mem frame 0 page_size;
  free = (p.free + word_mod - 1) % word_mod;
  used = (p.used + 1) % word_mod;
}

pub pmmi_alloc_frame : Pmm → ℕ × Pmm
unfolding pick_frame hand_out
pmmi_alloc_frame p =
    let (frame, q) = pick_frame p in if frame == 0 then (0, q) else (frame, hand_out frame q)

pub pmmi_free_frame : Pmm → ℕ → Pmm
pmmi_free_frame p frame =
    if frame == 0 || not (frame % page_size == 0)
    then p
    else if ltb frame p.base || leb p.cursor frame
    then p
    else record p {
      mem = store64 p.mem frame p.free_head;
      free_head = frame;
      free = (p.free + 1) % word_mod;
      used = (p.used + word_mod - 1) % word_mod;
    }

unfoldable pub pmmi_free_frames : Pmm → ℕ
pmmi_free_frames p = p.free

unfoldable pub pmmi_used_frames : Pmm → ℕ
pmmi_used_frames p = p.used
