-- ===== src/Tests/Loaders.antt =====
-- The loader on a small blob.
use krnl.Base.{
  ltb, if◌then◌else◌, ℕ, ◌+◌, ◌-◌, ◌*◌, ◌≤◌, ◌≡◌, ◌≢◌, refl, true, arith, false, List, [], ◌∷◌,
  ◌++◌, some, get_or, replicate,
}
use krnl.Base.Memory.{Memory}
use krnl.Base.Words.{load_bytes}
use krnl.Pef.Interface.{PageOps}
use krnl.Pef.Container.{
  PefCommandHeader, container_at, header_at, bytes_from, pef_magic_eq, field_string, same_chars,
  pef_name_eq, kind_prefix, mangle, pef_make_name, pef_read_container, accepts, find_header,
  pef_find_section, container_size, header_size, pef_max_sections, pef_name_len,
}
use krnl.Pef.Loader.{PefLoader, value, pages_of, load_pages, pef_load_section, find_symbol}
use krnl.Pef.Bounds.{Listed, pef_find_section-Listed}
use krnl.Pef.Blobs.{Agree, pef_find_section_inside}
use krnl.Pef.Symbols.{find_symbol-Listed}

abbrev zeros : ℕ → List ℕ
zeros n = replicate n 0

-- A container of one section, ".code64f", with 4 bytes of content at 368.
abbrev small_blob : List ℕ
small_blob =
    (79 ∷ 112 ∷ 101 ∷ 110 ∷ [])
    ++ zeros 13
    ++ (0x46 ∷ 0x50 ∷ [])
    ++ zeros 26
    ++ (1 ∷ [])
    ++ zeros 18
    ++ (46 ∷ 99 ∷ 111 ∷ 100 ∷ 101 ∷ 54 ∷ 52 ∷ 102 ∷ [])
    ++ zeros 248
    ++ (1 ∷ [])
    ++ zeros 11
    ++ (0xc ∷ 0 ∷ [])
    ++ (0x70 ∷ 1 ∷ [])
    ++ zeros 6
    ++ (4 ∷ [])
    ++ zeros 7
    ++ (0 ∷ 0 ∷ 0 ∷ 0x40 ∷ [])
    ++ zeros 4
    ++ (0 ∷ 0x10 ∷ [])
    ++ zeros 8

abbrev blob_memory : Memory
blob_memory a = get_or small_blob (a - 4096) 0

abbrev sect_f : List ℕ
sect_f = 46 ∷ 99 ∷ 111 ∷ 100 ∷ 101 ∷ 54 ∷ 52 ∷ 102 ∷ []

abbrev header_f : PefCommandHeader
header_f = header_at blob_memory 4160

found_f : pef_find_section blob_memory 4096 400 sect_f 0xc ≡ some header_f
unfolding pef_find_section pef_read_container find_header accepts pef_name_eq same_chars
    field_string pef_magic_eq container_at header_at bytes_from load_bytes
found_f = refl

section_example :
    (container_size + (container_at blob_memory 4096).count * header_size ≤ 400)
    × ((container_at blob_memory 4096).count ≤ pef_max_sections)
    × Listed blob_memory 4096 400 (container_at blob_memory 4096).count sect_f 0xc header_f
section_example = pef_find_section-Listed blob_memory 4096 400 sect_f 0xc header_f found_f

-- The same blob with other bytes behind it.
abbrev other_memory : Memory
other_memory a = if ltb a 4496 then blob_memory a else 255

same_blob : Agree blob_memory other_memory 4096 400
same_blob b low high = let inside : ltb b 4496 ≡ true = ground (arith, high) in rw inside refl

inside_example :
    pef_find_section blob_memory 4096 400 sect_f 0xc
    ≡ pef_find_section other_memory 4096 400 sect_f 0xc
inside_example = pef_find_section_inside blob_memory other_memory 4096 400 sect_f 0xc same_blob

-- Pages that are always there: the state counts the frames.
abbrev counting_pages : PageOps ℕ
counting_pages = record {
  alloc_frame = λ s. (4096, s + 1);
  free_frame = λ s frame. s - 1;
  map_page = λ s virt phys flags. (0, s);
  unmap_page = λ s virt. (4096, s);
}

abbrev loader_f : PefLoader
loader_f = record { cached_blob = 4096; cached_blob_sz = 400; fat_binary = false; bad = false }

abbrev name_f : List ℕ
name_f = 102 ∷ []

symbol_f : (find_symbol counting_pages blob_memory 0 loader_f name_f 0xc).0 ≡ value 0x40000000
unfolding find_symbol pef_make_name kind_prefix mangle pef_load_section load_pages pages_of
    pef_find_section pef_read_container find_header accepts pef_name_eq same_chars field_string
    pef_magic_eq container_at header_at bytes_from load_bytes
symbol_f = refl

symbol_example :
    (sect_name : List ℕ) × (pef_make_name pef_name_len 0xc name_f ≡ some sect_name)
    × (hdr : PefCommandHeader) × Listed blob_memory 4096 400
        (container_at blob_memory 4096).count
        sect_name
        0xc
        hdr
    × (0x40000000 ≡ hdr.vm_address)
    × (loader_f.bad ≡ false)
    × (hdr.offset_size ≢ 0)
symbol_example =
    find_symbol-Listed counting_pages blob_memory 0 loader_f name_f 0xc 0x40000000 symbol_f
