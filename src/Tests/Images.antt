-- ===== src/Tests/Images.antt =====
-- The PE32 loader on a small image.
use krnl.Base.{ℕ, ◌+◌, ◌-◌, ◌≡◌, false, ◌⊎◌, refl, List, [], ◌∷◌, ◌++◌, get_or, replicate}
use krnl.Base.Memory.{Memory}
use krnl.Base.Words.{load_bytes}
use krnl.Pef.Interface.{PageOps}
use krnl.Pef.Loader.{value}
use krnl.Pe.Headers.{
  OptionalHeader, exec_header_at, optional_header_at, ldr_find_exec_header,
  ldr_find_opt_exec_header, same_name,
}
use krnl.Pe.Image.{PeLoader, find_section, find_section_by_name}
use krnl.Pe.Exports.{
  FirstExport, section_of_kind, export_directory_at, export_address, is_exported_as, find_export,
  find_pe_symbol, find_pe_symbol-FirstExport,
}

abbrev gap : ℕ → List ℕ
gap n = replicate n 0

-- An image of two pages at 0x40000000 with one section of 4 bytes at 288, placed at 0x1000.
abbrev small_image : List ℕ
small_image =
    (77 ∷ 90 ∷ [])
    ++ gap 126
    ++ (0x50 ∷ 0x45 ∷ 0 ∷ 0 ∷ 0x64 ∷ 0x86 ∷ 1 ∷ [])
    ++ gap 13
    ++ (96 ∷ 0 ∷ 0 ∷ 0 ∷ [])
    ++ gap 17
    ++ (0x10 ∷ [])
    ++ gap 9
    ++ (0x40 ∷ [])
    ++ gap 29
    ++ (0x20 ∷ [])
    ++ gap 10
    ++ (0x11 ∷ [])
    ++ gap 27
    ++ (46 ∷ 116 ∷ 101 ∷ 120 ∷ 116 ∷ [])
    ++ gap 8
    ++ (0x10 ∷ 0 ∷ 0 ∷ 4 ∷ 0 ∷ 0 ∷ 0 ∷ 0x20 ∷ 1 ∷ [])
    ++ gap 18
    ++ (1 ∷ 2 ∷ 3 ∷ 4 ∷ [])

abbrev image_memory : Memory
image_memory a = get_or small_image (a - 4096) 0

-- Pages that are always there: the state counts the frames.
abbrev steady_pages : PageOps ℕ
steady_pages = record {
  alloc_frame = λ s. (4096, s + 1);
  free_frame = λ s frame. s - 1;
  map_page = λ s virt phys flags. (0, s);
  unmap_page = λ s virt. (4096, s);
}

abbrev opt_f : OptionalHeader
opt_f = optional_header_at image_memory 4248

size_f : opt_f.size_of_image ≡ 0x2000
unfolding optional_header_at load_bytes
size_f = refl

abbrev image_loader : PeLoader
image_loader = record { cached_blob = 4096; cached_blob_sz = 292; image = 0; bad = false }

-- An image with one export, "f", at 0x1000, in a table at 296.
abbrev exporting_image : List ℕ
exporting_image =
    (77 ∷ 90 ∷ [])
    ++ gap 126
    ++ (0x50 ∷ 0x45 ∷ 0 ∷ 0 ∷ 0x64 ∷ 0x86 ∷ 1 ∷ [])
    ++ gap 13
    ++ (104 ∷ 0 ∷ 0 ∷ 0 ∷ [])
    ++ gap 68
    ++ (0x11 ∷ [])
    ++ gap 27
    ++ (0x28 ∷ 1 ∷ 0 ∷ 0 ∷ 40 ∷ 0 ∷ 0 ∷ 0 ∷ [])
    ++ (46 ∷ 116 ∷ 101 ∷ 120 ∷ 116 ∷ [])
    ++ gap 59
    ++ (1 ∷ 0 ∷ 0 ∷ 0 ∷ 0x50 ∷ 1 ∷ 0 ∷ 0 ∷ 0x54 ∷ 1 ∷ 0 ∷ 0 ∷ 0x58 ∷ 1 ∷ 0 ∷ 0 ∷ [])
    ++ (0 ∷ 0x10 ∷ 0 ∷ 0 ∷ 0x5a ∷ 1 ∷ 0 ∷ 0 ∷ 0 ∷ 0 ∷ 102 ∷ 0 ∷ [])

abbrev exporting_memory : Memory
exporting_memory a = get_or exporting_image (a - 4096) 0

export_f : find_pe_symbol exporting_memory image_loader (102 ∷ []) 100 ≡ value 8192
unfolding find_pe_symbol section_of_kind find_section_by_name find_section find_export
    is_exported_as export_address export_directory_at same_name exec_header_at optional_header_at
    ldr_find_exec_header ldr_find_opt_exec_header load_bytes
export_f = refl

abbrev text_kind : ℕ
text_kind = 100

find_pe_symbol-FirstExport_example :
    (image_loader.bad ≡ false)
    × ((text_kind ≡ 100) ⊎ ((text_kind ≡ 101) ⊎ (text_kind ≡ 102)))
    × FirstExport exporting_memory 4096
        (4096 + load_bytes exporting_memory (4096 + 248) 4)
        (102 ∷ [])
        8192
find_pe_symbol-FirstExport_example =
    find_pe_symbol-FirstExport exporting_memory image_loader (102 ∷ []) text_kind 8192 export_f
