-- ===== src/Pef/Loader.antt =====
-- The loader itself: `ldr_unmap_pages`, `pef_load_section` and the members of `PEFLoader` for a blob in
-- memory, of private/minkernel/src/PEFCodeMgr.cpp. The copy into a section is left out of the state of
-- the pages, and given as the bytes that are copied.
use krnl.Kpc.{kpc_success, kpc_executable, kpc_heap_out_of_memory, kpc_invalid_data}
use krnl.Base.{
  ℕ, zero, suc, ◌+◌, ◌*◌, ◌/◌, ◌%◌, Bool, true, false, not, ◌&&◌, ◌||◌, List, [], ◌∷◌, none, some,
  ltb, leb, ◌==◌, if◌then◌else◌, get_or,
}
use krnl.Base.Memory.{Memory}
use krnl.Pef.Interface.{PageOps}
use krnl.Pef.Container.{
  PefCommandHeader, container_at, pef_abi, pef_name_len, pef_magic, pef_magic_fat, platform,
  pef_code, pef_make_name, pef_find_section,
}

abbrev pub page_sz : ℕ
page_sz = 0x1000

-- `kMMFlagsPresent | kMMFlagsWr | kMMFlagsUser`.
abbrev pub section_flags : ℕ
section_flags = 14

-- `ErrorOr<VoidPtr>`: an address, or an error.
pub data ErrorOr : Type 0 where
  value : ℕ → ErrorOr
  failure : ℕ → ErrorOr

-- A `PEFLoader` of a blob; 0 is no blob.
pub record PefLoader : Type 0 where
  pub cached_blob : ℕ
  pub cached_blob_sz : ℕ
  pub fat_binary : Bool
  pub bad : Bool

unfoldable pub pages_of : PefCommandHeader → ℕ
pages_of hdr = hdr.vm_size / page_sz + (if hdr.vm_size % page_sz == 0 then 0 else 1)

-- `__ImageStart`.
abbrev pub pef_start : List ℕ
pef_start = 95 ∷ 95 ∷ 73 ∷ 109 ∷ 97 ∷ 103 ∷ 101 ∷ 83 ∷ 116 ∷ 97 ∷ 114 ∷ 116 ∷ []

module _ {S : Type 0} (ops : PageOps S) where
  -- `ldr_unmap_pages`: the last of `n` pages first.
  unfoldable pub ldr_unmap_pages : S → ℕ → ℕ → S
  ldr_unmap_pages s base zero = s
  ldr_unmap_pages s base (suc n) =
      let (frame, s') = ops.unmap_page s (base + n * page_sz) in
      ldr_unmap_pages (ops.free_frame s' frame) base n

  -- The loop of `pef_load_section` from page `i`: whether all pages are mapped. A failure gives back
  -- the frame at hand and the pages before.
  unfoldable pub load_pages : S → ℕ → ℕ → ℕ → Bool × S
  load_pages s base zero i = (true, s)
  load_pages s base (suc remaining) i =
      let (frame, s') = ops.alloc_frame s in
      let (status, s'') = ops.map_page s' (base + i * page_sz) frame section_flags in
      let rest = load_pages s'' base remaining (i + 1) in
      if frame == 0
      then (false, ldr_unmap_pages (ops.free_frame s' frame) base i)
      else if not (status == kpc_success)
      then (false, ldr_unmap_pages (ops.free_frame s'' frame) base i)
      else rest

  -- `pef_load_section`, with the pages it leaves.
  unfoldable pub pef_load_section : S → PefCommandHeader → ℕ → ErrorOr × S
  pef_load_section s hdr src =
      let (loaded, s') = load_pages s hdr.vm_address (pages_of hdr) 0 in
      if src == 0
      then (failure kpc_invalid_data, s)
      else if loaded
      then (value hdr.vm_address, s')
      else (failure kpc_heap_out_of_memory, s')

  -- `FindSymbol`, of a loader that has a blob of a known size.
  unfoldable pub find_symbol : Memory → S → PefLoader → List ℕ → ℕ → ErrorOr × S
  find_symbol m s loader name kind =
      if loader.cached_blob == 0 || loader.bad
      then (failure kpc_invalid_data, s)
      else elim (pef_make_name pef_name_len kind name) [
        | none ↦ (failure kpc_invalid_data, s)
        | some sect_name ↦
            elim (pef_find_section m loader.cached_blob loader.cached_blob_sz sect_name kind) [
              | none ↦ (failure kpc_invalid_data, s)
              | some hdr ↦
                  pef_load_section s hdr
                    (if ltb 0 hdr.offset_size then loader.cached_blob + hdr.offset else 0)
            ]
      ]

  unfoldable pub find_start : Memory → S → PefLoader → ErrorOr × S
  find_start m s loader =
      let (sym, s') = find_symbol m s loader pef_start pef_code in
      elim sym [ value start ↦ (value start, s') | failure e ↦ (failure kpc_executable, s') ]

-- The five characters of a magic, of which the last is the 0 that ends the string.
unfoldable pub magic_is : List ℕ → List ℕ → Bool
magic_is magic want =
    get_or magic 0 0 == get_or want 0 0
    && get_or magic 1 0 == get_or want 1 0
    && get_or magic 2 0 == get_or want 2 0
    && get_or magic 3 0 == get_or want 3 0
    && get_or magic 4 0 == 0

-- The constructor from a blob, which reads the container whatever the length.
unfoldable pub new_loader : Memory → ℕ → ℕ → PefLoader
new_loader m blob len =
    let container = container_at m blob in
    let known = container.abi == pef_abi && leb 3 container.count in
    if blob == 0
    then record { cached_blob = blob; cached_blob_sz = len; fat_binary = false; bad = true }
    else if known && container.cpu == platform && magic_is container.magic pef_magic
    then record { cached_blob = blob; cached_blob_sz = len; fat_binary = false; bad = false }
    else if known && magic_is container.magic pef_magic_fat
    then record { cached_blob = blob; cached_blob_sz = len; fat_binary = true; bad = false }
    else record { cached_blob = 0; cached_blob_sz = len; fat_binary = false; bad = true }

unfoldable pub is_loaded : PefLoader → Bool
is_loaded loader = not loader.bad
