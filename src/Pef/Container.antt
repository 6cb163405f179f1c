-- ===== src/Pef/Container.antt =====
-- Containers and their section headers: the helpers of private/minkernel/src/PEFCodeMgr.cpp that read
-- a flat blob, and the structures of private/minkernel/KernelKit/PEF.h. A container is 64 bytes and a
-- section header 304.
use krnl.Base.{
  ℕ, zero, suc, ◌+◌, ◌-◌, ◌*◌, ◌/◌, ◌%◌, Bool, true, false, not, ◌&&◌, ◌||◌, List, [], ◌∷◌, ◌++◌,
  map, Option, none, some, ltb, leb, ◌==◌, if◌then◌else◌, length,
}
use krnl.Base.Memory.{Memory}
use krnl.Base.Words.{load_bytes}

abbrev pub pef_magic : List ℕ
pef_magic = 79 ∷ 112 ∷ 101 ∷ 110 ∷ []

abbrev pub pef_magic_fat : List ℕ
pef_magic_fat = 110 ∷ 101 ∷ 112 ∷ 79 ∷ []

abbrev pub pef_name_len : ℕ
pef_name_len = 256

abbrev pub pef_abi : ℕ
pef_abi = 0x5046

abbrev pub pef_base_origin : ℕ
pef_base_origin = 0x40000000

abbrev pub pef_max_sections : ℕ
pef_max_sections = 64

abbrev pub pef_max_image_sz : ℕ
pef_max_image_sz = 0x4000000

abbrev pub container_size : ℕ
container_size = 64

abbrev pub header_size : ℕ
header_size = 304

abbrev pub pef_code : ℕ
pef_code = 0xc

abbrev pub pef_data : ℕ
pef_data = 0xd

abbrev pub pef_zero : ℕ
pef_zero = 0xe

-- `ldr_get_platform`: `kPefArchAMD64`.
abbrev pub platform : ℕ
platform = 1

-- The bytes of an array in memory.
unfoldable pub bytes_from : Memory → ℕ → ℕ → List ℕ
bytes_from m a zero = []
bytes_from m a (suc n) = m a % 256 ∷ bytes_from m (a + 1) n

pub record PefContainer : Type 0 where
  pub magic : List ℕ
  pub linker : ℕ
  pub version : ℕ
  pub kind : ℕ
  pub abi : ℕ
  pub cpu : ℕ
  pub sub_cpu : ℕ
  pub start : ℕ
  pub hdr_sz : ℕ
  pub count : ℕ
  pub checksum : ℕ

pub record PefCommandHeader : Type 0 where
  pub name : List ℕ
  pub cpu : ℕ
  pub sub_cpu : ℕ
  pub flags : ℕ
  pub kind : ℕ
  pub offset : ℕ
  pub offset_size : ℕ
  pub vm_address : ℕ
  pub vm_size : ℕ

-- The structures at an address, by the offsets of their packed fields.
unfoldable pub container_at : Memory → ℕ → PefContainer
container_at m a = record {
  magic = bytes_from m a 5;
  linker = load_bytes m (a + 5) 4;
  version = load_bytes m (a + 9) 4;
  kind = load_bytes m (a + 13) 4;
  abi = load_bytes m (a + 17) 4;
  cpu = load_bytes m (a + 21) 4;
  sub_cpu = load_bytes m (a + 25) 4;
  start = load_bytes m (a + 29) 8;
  hdr_sz = load_bytes m (a + 37) 8;
  count = load_bytes m (a + 45) 8;
  checksum = load_bytes m (a + 53) 4;
}

unfoldable pub header_at : Memory → ℕ → PefCommandHeader
header_at m a = record {
  name = bytes_from m a 256;
  cpu = load_bytes m (a + 256) 4;
  sub_cpu = load_bytes m (a + 260) 4;
  flags = load_bytes m (a + 264) 4;
  kind = load_bytes m (a + 268) 2;
  offset = load_bytes m (a + 270) 8;
  offset_size = load_bytes m (a + 278) 8;
  vm_address = load_bytes m (a + 286) 8;
  vm_size = load_bytes m (a + 294) 8;
}

-- `pef_magic_eq`: the first four characters.
unfoldable pub pef_magic_eq : List ℕ → List ℕ → Bool
pef_magic_eq (a ∷ b ∷ c ∷ d ∷ rest) (a' ∷ b' ∷ c' ∷ d' ∷ rest') =
    a == a' && b == b' && c == c' && d == d'
pef_magic_eq magic want = false

-- The characters of a field before the first 0, or the whole field.
unfoldable pub field_string : List ℕ → List ℕ
field_string [] = []
field_string (c ∷ cs) = let rest = field_string cs in if c == 0 then [] else c ∷ rest

unfoldable pub same_chars : List ℕ → List ℕ → Bool
same_chars [] [] = true
same_chars [] (c ∷ want) = false
same_chars (c ∷ field) [] = false
same_chars (c ∷ field) (e ∷ want) = c == e && same_chars field want

-- `pef_name_eq`; a name wanted is at most 255 characters long.
unfoldable pub pef_name_eq : List ℕ → List ℕ → Bool
pef_name_eq field want =
    ltb (length (field_string field)) pef_name_len && same_chars (field_string field) want

-- The prefixes of the kinds of section: ".code64", ".data64" and ".zero64".
unfoldable pub kind_prefix : ℕ → Option (List ℕ)
kind_prefix kind =
    if kind == pef_code
    then some (46 ∷ 99 ∷ 111 ∷ 100 ∷ 101 ∷ 54 ∷ 52 ∷ [])
    else if kind == pef_data
    then some (46 ∷ 100 ∷ 97 ∷ 116 ∷ 97 ∷ 54 ∷ 52 ∷ [])
    else if kind == pef_zero
    then some (46 ∷ 122 ∷ 101 ∷ 114 ∷ 111 ∷ 54 ∷ 52 ∷ [])
    else none

unfoldable pub mangle : ℕ → ℕ
mangle c = if c == 32 then 36 else c

-- `pef_make_name`, for a buffer of `dst_sz` bytes.
unfoldable pub pef_make_name : ℕ → ℕ → List ℕ → Option (List ℕ)
pef_make_name dst_sz kind name = elim (kind_prefix kind) [
  | none ↦ none
  | some prefix ↦
      (if leb (dst_sz - length prefix) (length name)
        then none
        else some (prefix ++ map mangle name))
]

-- `pef_read_container`, for a blob that is there.
unfoldable pub pef_read_container : Memory → ℕ → ℕ → Option PefContainer
pef_read_container m blob len =
    let out = container_at m blob in
    if ltb len container_size
    then none
    else if not (pef_magic_eq out.magic pef_magic) && not (pef_magic_eq out.magic pef_magic_fat)
    then none
    else if not (out.abi == pef_abi)
    then none
    else if ltb out.count 1 || ltb pef_max_sections out.count
    then none
    else if ltb ((len - container_size) / header_size) out.count
    then none
    else some out

-- The tests on the header whose name and kind match.
unfoldable pub accepts : ℕ → Bool → ℕ → PefCommandHeader → Bool
accepts len is_fat table_sz out =
    if not (out.cpu == platform) && not is_fat
    then false
    else if ltb out.vm_size 1 || ltb pef_max_image_sz out.vm_size
    then false
    else if ltb out.vm_address pef_base_origin
    then false
    else if ltb (pef_max_image_sz - out.vm_size) (out.vm_address - pef_base_origin)
    then false
    else if ltb out.vm_size out.offset_size
    then false
    else if out.offset_size == 0
    then true
    else if ltb len out.offset
    then false
    else if ltb (len - out.offset) out.offset_size
    then false
    else if ltb out.offset (container_size + table_sz)
    then false
    else true

-- The loop over the headers from index `i`.
unfoldable pub find_header :
    Memory → ℕ → ℕ → List ℕ → ℕ → Bool → ℕ → ℕ → ℕ → Option PefCommandHeader
find_header m blob len name kind is_fat table_sz zero i = none
find_header m blob len name kind is_fat table_sz (suc remaining) i =
    let out = header_at m (blob + container_size + i * header_size) in
    let rest = find_header m blob len name kind is_fat table_sz remaining (i + 1) in
    if not (out.kind == kind)
    then rest
    else if not (pef_name_eq out.name name)
    then rest
    else if accepts len is_fat table_sz out
    then some out
    else none

-- `pef_find_section`.
unfoldable pub pef_find_section : Memory → ℕ → ℕ → List ℕ → ℕ → Option PefCommandHeader
pef_find_section m blob len name kind = elim (pef_read_container m blob len) [
  | none ↦ none
  | some container ↦
      find_header m blob len name kind (pef_magic_eq container.magic pef_magic_fat)
        (container.count * header_size) container.count 0
]
