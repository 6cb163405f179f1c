-- ===== src/Pe/Accepted.antt =====
-- What loading a new blob answers.
use krnl.Base.{ℕ, ◌+◌, ◌≡◌, true}
use krnl.Base.Memory.{Memory}
use krnl.Pef.Interface.{PageOps}
use krnl.Pe.Headers.{ExecHeader, exec_header_at, optional_header_at}
use krnl.Pe.Image.{map_pages, image_pages, copy_sections, max_sections}

-- What an answer shows of the copies, with the headers at two places.
record Accepted (m : Memory) (blob len v header_ptr opt_ptr : ℕ) : Type 0 where
  tested :
      (copy_sections m blob len header_ptr opt_ptr
        (opt_ptr + (exec_header_at m header_ptr).size_of_optional_header)
        max_sections
        0).0
      ≡ true
  answered :
      v
      ≡ (optional_header_at
          (copy_sections m blob len header_ptr opt_ptr
            (opt_ptr + (exec_header_at m header_ptr).size_of_optional_header)
            max_sections
            0).1
          opt_ptr).image_base

-- The same with the header given.
record Copied (m : Memory) (blob len v header_ptr opt_ptr : ℕ) (header : ExecHeader) : Type 0 where
  tested :
      (copy_sections m blob len header_ptr opt_ptr
        (opt_ptr + header.size_of_optional_header)
        max_sections
        0).0
      ≡ true
  answered :
      v
      ≡ (optional_header_at
          (copy_sections m blob len header_ptr opt_ptr
            (opt_ptr + header.size_of_optional_header)
            max_sections
            0).1
          opt_ptr).image_base

-- The memory once the pages are mapped.
abbrev mapped_memory : {S : Type 0} → PageOps S → Memory → S → ℕ → Memory
mapped_memory ops m s opt_ptr =
    (map_pages ops m s opt_ptr (image_pages (optional_header_at m opt_ptr)) 0).2
