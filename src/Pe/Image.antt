-- ===== src/Pe/Image.antt =====
-- The members of `PE32Loader` for a blob in memory, of private/minkernel/src/PE32CodeMgr.cpp. The memory
-- is the one of virtual addresses: a page that is mapped holds zeros, as frames come zeroed. What was at a
-- page that is unmapped again is gone, and it is left with the bytes it had.
use krnl.Kpc.{kpc_success, kpc_executable, kpc_heap_out_of_memory, kpc_invalid_data}
use krnl.Base.{
  ℕ, zero, suc, ◌+◌, ◌-◌, ◌*◌, ◌/◌, ◌%◌, Bool, true, false, not, ◌||◌, List, ltb, ◌==◌,
  if◌then◌else◌,
}
use krnl.Base.Memory.{Memory, fill}
use krnl.Ascii.{copy_memory_safe}
use krnl.Pef.Interface.{PageOps}
use krnl.Pef.Loader.{ErrorOr, value, failure, ldr_unmap_pages, page_sz, section_flags}
use krnl.Pe.Headers.{
  ExecHeader, OptionalHeader, SectionHeader, exec_header_at, optional_header_at, section_header_at,
  ldr_find_exec_header, ldr_find_opt_exec_header, same_name, pe_machine, pe_signature, pe_subsystem,
  pe_max_image_sz, min_pe_sz, section_header_size,
}

-- A `PE32Loader` of a blob; 0 is no image.
pub record PeLoader : Type 0 where
  pub cached_blob : ℕ
  pub cached_blob_sz : ℕ
  pub image : ℕ
  pub bad : Bool

-- The tests of the constructor.
unfoldable pub is_bad : Memory → ℕ → ℕ → Bool
is_bad m blob len =
    let header = exec_header_at m (ldr_find_exec_header m blob) in
    let opt = optional_header_at m (ldr_find_opt_exec_header m blob) in
    if blob == 0 || ltb len min_pe_sz
    then true
    else if ldr_find_exec_header m blob == 0 || ldr_find_opt_exec_header m blob == 0
    then true
    else if not (header.machine == pe_machine)
    then true
    else if not (opt.subsystem == pe_subsystem)
    then true
    else ltb opt.size_of_image 1 || ltb pe_max_image_sz opt.size_of_image

unfoldable pub new_pe_loader : Memory → ℕ → ℕ → PeLoader
new_pe_loader m blob len = record {
  cached_blob = blob;
  cached_blob_sz = len;
  image = 0;
  bad = is_bad m blob len;
}

-- The loop of `FindSectionByName` from section `i`, as the address of the header.
unfoldable pub find_section : Memory → ℕ → List ℕ → ℕ → ℕ → ErrorOr
find_section m secs name zero i = failure kpc_invalid_data
find_section m secs name (suc remaining) i =
    let rest = find_section m secs name remaining (i + 1) in
    if same_name m (secs + i * section_header_size) name
    then value (secs + i * section_header_size)
    else rest

unfoldable pub find_section_by_name : Memory → PeLoader → List ℕ → ErrorOr
find_section_by_name m loader name =
    let header_ptr = ldr_find_exec_header m loader.cached_blob in
    let opt_header_ptr = ldr_find_opt_exec_header m loader.cached_blob in
    let header = exec_header_at m header_ptr in
    if loader.cached_blob == 0 || loader.bad
    then failure kpc_invalid_data
    else if header_ptr == 0 || opt_header_ptr == 0
    then failure kpc_invalid_data
    else if not (header.machine == pe_machine) || not (header.signature == pe_signature)
    then failure kpc_invalid_data
    else if header.number_of_sections == 0
    then failure kpc_invalid_data
    else if not ((optional_header_at m opt_header_ptr).subsystem == pe_subsystem)
    then failure kpc_invalid_data
    else find_section m (opt_header_ptr + header.size_of_optional_header) name
        header.number_of_sections 0

-- A section whose data fits the image and lies in the blob.
unfoldable pub section_fits : OptionalHeader → ℕ → SectionHeader → Bool
section_fits opt blob_sz sec = not (
    ((ltb opt.size_of_image sec.virtual_address
        || ltb (opt.size_of_image - sec.virtual_address) sec.size_of_raw_data)
      || ltb blob_sz sec.pointer_to_raw_data)
    || ltb (blob_sz - sec.pointer_to_raw_data) sec.size_of_raw_data)

-- The copy of a section.
unfoldable pub copy_section : Memory → ℕ → OptionalHeader → SectionHeader → Memory
copy_section m blob opt sec =
    (copy_memory_safe m (blob + sec.pointer_to_raw_data) (opt.image_base + sec.virtual_address)
      sec.size_of_raw_data (opt.size_of_image - sec.virtual_address)).1

-- A header counts its sections in 16 bits, which bounds the loop.
abbrev pub max_sections : ℕ
max_sections = 65536

-- The loop over the sections from section `i`: whether all fit, and the memory. The headers are read
-- again for each section, as the copies before may have changed them.
unfoldable pub copy_sections : Memory → ℕ → ℕ → ℕ → ℕ → ℕ → ℕ → ℕ → Bool × Memory
copy_sections m blob blob_sz header_ptr opt_ptr sect zero i = (true, m)
copy_sections m blob blob_sz header_ptr opt_ptr sect (suc fuel) i =
    let opt = optional_header_at m opt_ptr in
    let sec = section_header_at m (sect + i * section_header_size) in
    elim (ltb i (exec_header_at m header_ptr).number_of_sections) [
      | false ↦ (true, m)
      | true ↦ elim (sec.size_of_raw_data == 0) [
        | true ↦ copy_sections m blob blob_sz header_ptr opt_ptr sect fuel (i + 1)
        | false ↦ elim (section_fits opt blob_sz sec) [
          | false ↦ (false, m)
          | true ↦
              copy_sections (copy_section m blob opt sec) blob blob_sz header_ptr opt_ptr sect fuel
                (i + 1)
        ]
      ]
    ]

unfoldable pub image_pages : OptionalHeader → ℕ
image_pages opt = opt.size_of_image / page_sz + (if opt.size_of_image % page_sz == 0 then 0 else 1)

-- A zeroed frame behind the page that an address lies in.
unfoldable pub fresh_page : Memory → ℕ → Memory
fresh_page m virt = fill m (virt / page_sz * page_sz) 0 page_sz

-- The place of the section headers in the blob, and whether their table lies in it.
unfoldable pub table_fits : ExecHeader → ℕ → Bool
table_fits header blob_sz =
    let sect_off = 152 + header.size_of_optional_header in
    not (
      ltb blob_sz sect_off
      || ltb ((blob_sz - sect_off) / section_header_size) header.number_of_sections)

-- What loading an image leaves: the answer, the loader, the pages and the memory.
pub record Loaded (S : Type 0) : Type 0 where
  pub answer : ErrorOr
  pub loader : PeLoader
  pub pages : S
  pub mem : Memory

module _ {S : Type 0} (ops : PageOps S) where
  -- The loop that maps the pages from page `i`: whether all are mapped, the pages, and the memory. The
  -- base is read again for each page, as the pages before may lie over the header.
  unfoldable pub map_pages : Memory → S → ℕ → ℕ → ℕ → Bool × S × Memory
  map_pages m s opt_ptr zero i = (true, s, m)
  map_pages m s opt_ptr (suc remaining) i =
      let base = (optional_header_at m opt_ptr).image_base in
      let (frame, s') = ops.alloc_frame s in
      let (status, s'') = ops.map_page s' (base + i * page_sz) frame section_flags in
      let rest = map_pages (fresh_page m (base + i * page_sz)) s'' opt_ptr remaining (i + 1) in
      if frame == 0
      then (false, ldr_unmap_pages ops (ops.free_frame s' frame) base i, m)
      else if not (status == kpc_success)
      then (false, ldr_unmap_pages ops (ops.free_frame s'' frame) base i, m)
      else rest

  -- The mapping and the copies, once the headers are tested.
  unfoldable pub build_image : Memory → S → PeLoader → ℕ → ℕ → Loaded S
  unfolding map_pages
  build_image m s loader header_ptr opt_ptr =
      let pages = image_pages (optional_header_at m opt_ptr) in
      let (mapped, s', m1) = map_pages m s opt_ptr pages 0 in
      let sect = opt_ptr + (exec_header_at m1 header_ptr).size_of_optional_header in
      let (fit, m') =
        copy_sections m1 loader.cached_blob loader.cached_blob_sz header_ptr opt_ptr sect
          max_sections 0 in
      let base = (optional_header_at m' opt_ptr).image_base in
      if not mapped
      then record { answer = failure kpc_heap_out_of_memory; loader = loader; pages = s'; mem = m1 }
      else if fit
      then record {
        answer = value base;
        loader = record loader { image = base };
        pages = s';
        mem = m';
      }
      else record {
        answer = failure kpc_invalid_data;
        loader = loader;
        pages = ldr_unmap_pages ops s' base pages;
        mem = m';
      }

  -- `LoadImage`.
  unfoldable pub load_image : Memory → S → PeLoader → Loaded S
  load_image m s loader =
      let header_ptr = ldr_find_exec_header m loader.cached_blob in
      let opt_ptr = ldr_find_opt_exec_header m loader.cached_blob in
      let header = exec_header_at m header_ptr in
      let refused : Loaded S = record {
        answer = failure kpc_invalid_data;
        loader = loader;
        pages = s;
        mem = m;
      } in
      if not (loader.image == 0)
      then record { answer = value loader.image; loader = loader; pages = s; mem = m }
      else if (loader.bad || loader.cached_blob == 0) || loader.cached_blob_sz == 0
      then refused
      else if (header_ptr == 0 || opt_ptr == 0) || header.number_of_sections == 0
      then refused
      else if not (table_fits header loader.cached_blob_sz)
      then refused
      else build_image m s loader header_ptr opt_ptr

  -- `FindStart`.
  unfoldable pub find_image_start : Memory → S → PeLoader → Loaded S
  find_image_start m s loader =
      let loaded = load_image m s loader in
      let opt_ptr = ldr_find_opt_exec_header loaded.mem loader.cached_blob in
      let opt = optional_header_at loaded.mem opt_ptr in
      let refused : Loaded S = record loaded { answer = failure kpc_executable } in
      elim loaded.answer [
        | failure e ↦ refused
        | value image ↦
            (if image == 0
              then refused
              else if opt_ptr == 0 || opt.address_of_entry_point == 0
              then refused
              else record loaded { answer = value (opt.image_base + opt.address_of_entry_point) })
      ]
