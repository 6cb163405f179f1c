-- ===== src/Pe/Headers.antt =====
-- The headers of a PE image, of private/minkernel/KernelKit/PE.h, and where they stand in a blob:
-- private/minkernel/CFKit/Utils.h. The DOS header is 128 bytes, the COFF header 24, the optional header
-- 96, and a section header 40.
use krnl.Base.{ℕ, ◌+◌, Bool, false, not, List, [], ◌∷◌, ◌==◌, if◌then◌else◌}
use krnl.Base.Memory.{Memory}
use krnl.Base.Words.{load_bytes}
use krnl.Ascii.{char}

abbrev pub pe_machine : ℕ
pe_machine = 0x8664

abbrev pub pe_signature : ℕ
pe_signature = 0x4550

abbrev pub pe_subsystem : ℕ
pe_subsystem = 0x11

abbrev pub pe_max_image_sz : ℕ
pe_max_image_sz = 0x4000000

abbrev pub min_pe_sz : ℕ
min_pe_sz = 248

abbrev pub section_header_size : ℕ
section_header_size = 40

-- The fields that the loader reads, of `LDR_EXEC_HEADER`, `LDR_OPTIONAL_HEADER` and
-- `LDR_SECTION_HEADER`.
pub record ExecHeader : Type 0 where
  pub signature : ℕ
  pub machine : ℕ
  pub number_of_sections : ℕ
  pub size_of_optional_header : ℕ

pub record OptionalHeader : Type 0 where
  pub address_of_entry_point : ℕ
  pub image_base : ℕ
  pub size_of_image : ℕ
  pub subsystem : ℕ

pub record SectionHeader : Type 0 where
  pub virtual_address : ℕ
  pub size_of_raw_data : ℕ
  pub pointer_to_raw_data : ℕ

unfoldable pub exec_header_at : Memory → ℕ → ExecHeader
exec_header_at m a = record {
  signature = load_bytes m a 4;
  machine = load_bytes m (a + 4) 2;
  number_of_sections = load_bytes m (a + 6) 2;
  size_of_optional_header = load_bytes m (a + 20) 2;
}

unfoldable pub optional_header_at : Memory → ℕ → OptionalHeader
optional_header_at m a = record {
  address_of_entry_point = load_bytes m (a + 16) 4;
  image_base = load_bytes m (a + 24) 8;
  size_of_image = load_bytes m (a + 56) 4;
  subsystem = load_bytes m (a + 68) 2;
}

unfoldable pub section_header_at : Memory → ℕ → SectionHeader
section_header_at m a = record {
  virtual_address = load_bytes m (a + 12) 4;
  size_of_raw_data = load_bytes m (a + 16) 4;
  pointer_to_raw_data = load_bytes m (a + 20) 4;
}

-- `ldr_find_exec_header` and `ldr_find_opt_exec_header`: 0 for none.
unfoldable pub ldr_find_exec_header : Memory → ℕ → ℕ
ldr_find_exec_header m blob =
    if blob == 0
    then 0
    else if not (char m blob == 77)
    then 0
    else if not (char m (blob + 1) == 90)
    then 0
    else blob + 128

unfoldable pub ldr_find_opt_exec_header : Memory → ℕ → ℕ
ldr_find_opt_exec_header m blob =
    if blob == 0
    then 0
    else if ldr_find_exec_header m blob == 0
    then 0
    else ldr_find_exec_header m blob + 24

-- The name of a section header, compared as the string that starts there.
unfoldable pub same_name : Memory → ℕ → List ℕ → Bool
same_name m a [] = char m a == 0
same_name m a (c ∷ name) =
    let rest = same_name m (a + 1) name in if char m a == c then rest else false
