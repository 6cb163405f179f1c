-- ===== src/Tests/Frames.antt =====
-- A region of four frames of which two are in use.
use krnl.Base.{
  ◌^◌, true, false, ℕ, ◌+◌, ◌-◌, ◌*◌, ◌%◌, ◌≤◌, ◌<◌, ◌≡◌, ◌≢◌, ◌⊎◌, refl, arith, [], ◌∷◌,
}
use krnl.Physical.{Pmm, page_size, align_down, pmmi_init, pmmi_alloc_frame, pmmi_free_frame}
use krnl.Physical.Refinement.{
  Represents, IsLive, AllocSpec, pmmi_init-Represents, pmmi_alloc_frame-AllocSpec,
}
use krnl.Physical.Live.{
  pmmi_free_frame-Represents, alloc_frame-free_frame, pmmi_alloc_frame-keeps_live,
  double_free-aliases,
}
use krnl.Paging.{PageFlags, address_of, is_present, page_entry}
use krnl.Paging.Entries.{page_entry-address}
use krnl.Crc.{calculate_crc32}
use krnl.Crc.Bitwise.{bitwise_crc}
use krnl.Base.Memory.{Memory}
use krnl.Crc.Table.{bytes_at, calculate_crc32-bitwise_crc}

abbrev two_used : Pmm
two_used = record {
  mem = λ a. 7;
  base = 4096;
  cursor = 12288;
  end = 20480;
  free_head = 0;
  free = 2;
  used = 2;
}

two_used-Represents : Represents two_used []
two_used-Represents = record {
  base_pos = omega arith;
  base_le = omega arith;
  cursor_le = omega arith;
  end_lt = omega arith;
  base_aligned = refl;
  cursor_aligned = refl;
  end_aligned = refl;
  chain = refl;
  frames = tt;
  distinct = tt;
  free_count = refl;
  used_count = refl;
}

first-IsLive : IsLive two_used [] 4096
first-IsLive = record {
  frame = record { aligned = refl; above = omega arith; below = omega arith };
  not_free = tt;
}

pmmi_init_example :
    Represents (pmmi_init two_used 5000 20000) []
    × ((pmmi_init two_used 5000 20000).free * page_size
        ≡ align_down (5000 + 20000) - align_down (5000 + (page_size - 1)))
    × ((pmmi_init two_used 5000 20000).used ≡ 0)
pmmi_init_example =
    pmmi_init-Represents two_used 5000 20000 (omega arith) (omega arith) (omega arith)

alloc_frame_example : AllocSpec two_used [] (pmmi_alloc_frame two_used)
alloc_frame_example = pmmi_alloc_frame-AllocSpec two_used [] two_used-Represents

free_frame_example :
    Represents (pmmi_free_frame two_used 4096) (4096 ∷ [])
    × ((a : ℕ)
        → (a + 1 ≤ 4096) ⊎ (4096 + 8 ≤ a)
        → (pmmi_free_frame two_used 4096).mem a ≡ two_used.mem a)
free_frame_example =
    pmmi_free_frame-Represents two_used [] 4096 two_used-Represents first-IsLive (omega arith)

alloc_free_example :
    let r = pmmi_alloc_frame (pmmi_free_frame two_used 4096) in
    (r.0 ≡ 4096) × Represents r.1 [] × (r.1.free ≡ two_used.free) × (r.1.used ≡ two_used.used)
alloc_free_example =
    alloc_frame-free_frame two_used [] 4096 two_used-Represents first-IsLive (omega arith)

keeps_live_example :
    ((pmmi_alloc_frame two_used).0 ≢ 4096)
    × ((a : ℕ)
        → 4096 ≤ a
        → a < 4096 + page_size
        → (pmmi_alloc_frame two_used).1.mem a ≡ two_used.mem a)
keeps_live_example = pmmi_alloc_frame-keeps_live two_used [] 4096 two_used-Represents first-IsLive

double_free_example :
    let r = pmmi_alloc_frame (pmmi_free_frame (pmmi_free_frame two_used 4096) 4096) in
    (r.0 ≡ 4096) × ((pmmi_alloc_frame r.1).0 ≡ 4096)
double_free_example = double_free-aliases two_used [] 4096 two_used-Represents first-IsLive

-- The nine digits of the usual check value.
abbrev digits : Memory
digits a = (40 + a) % 256

crc_example : calculate_crc32 digits 9 9 + bitwise_crc 0xffffffff (bytes_at digits 9 9) ≡ 0xffffffff
crc_example = calculate_crc32-bitwise_crc digits 9 9 (λ a. omega arith) (λ e. omega (arith, e))

abbrev user_page : PageFlags
user_page = record { present = true; wr = true; user = true; nx = true; pcd = false; pwt = false }

page_entry_example :
    (address_of (page_entry 20480 user_page) ≡ 20480)
    × (is_present (page_entry 20480 user_page) ≡ user_page.present)
    × (page_entry 20480 user_page < 2 ^ 64)
page_entry_example = page_entry-address 20480 user_page refl (omega arith)
