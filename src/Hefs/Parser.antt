-- ===== src/Hefs/Parser.antt =====
-- The operations of `HeFileSystemParser` in private/minkernel/src/FS/OpenHeFS+FileSystemParser.cpp.
-- Allocations succeed, the tag of a packet and the verification, which does nothing, are left out.
use krnl.Kpc.{kpc_success, kpc_file_not_found, kpc_directory_not_found, kpc_disk, kpc_invalid_data}
use krnl.Base.{
  ℕ, ◌+◌, ◌*◌, ◌%◌, ◌^◌, Bool, true, false, not, ◌&&◌, ◌||◌, List, [], ◌∷◌, Option, none, some, ltb,
  ◌==◌, if◌then◌else◌, length,
}
use krnl.Base.Bits.{bit_and}
use krnl.Hefs.Words.{hash_64}
use krnl.Hefs.Nodes.{BootNode, IndexNode, zero_node}
use krnl.Hefs.Drive.{Drive, Answer, answer, drv_input, output_bytes, input_bytes, read_boot}
use krnl.Hefs.Tree.{balance_ind}
use krnl.Hefs.Directories.{update_ind_status}
use krnl.Hefs.Files.{fetch_in, update_in_status}

abbrev pub file_name_len : ℕ
file_name_len = 256

abbrev pub hefs_version : ℕ
hefs_version = 0x0104

abbrev pub hefs_magic : List ℕ
hefs_magic = 79 ∷ 112 ∷ 101 ∷ 110 ∷ 72 ∷ 101 ∷ 70 ∷ 83 ∷ []

abbrev pub search_all_str : List ℕ
search_all_str = 42 ∷ []

abbrev pub flags_read_only : ℕ
flags_read_only = 0x100

-- The characters of an array up to its first 0.
unfoldable pub c_string : List ℕ → List ℕ
c_string [] = []
c_string (c ∷ cs) = let rest = c_string cs in if c == 0 then [] else c ∷ rest

-- `KStringBuilder::Equals`.
unfoldable pub equals : List ℕ → List ℕ → Bool
equals [] [] = true
equals [] (c ∷ rhs) = false
equals (c ∷ lhs) [] = false
equals (c ∷ lhs) (e ∷ rhs) = c == e && equals lhs rhs

unfoldable pub is_formatted : BootNode → Bool
is_formatted boot = equals (c_string boot.magic) hefs_magic && boot.version == hefs_version

unfoldable pub has_separator : List ℕ → Bool
has_separator [] = false
has_separator (c ∷ cs) = c == 47 || has_separator cs

abbrev pub with_error : Drive → ℕ → Drive
with_error d e = record d { error = e }

-- `INodeDirectoryCtlManip`: the answer is `YES` too when the boot node is not one.
unfoldable pub inode_directory_ctl_manip : ℕ → Drive → ℕ → List ℕ → Bool → Option Answer
inode_directory_ctl_manip steps d flags dir delete_or_create =
    let boot = read_boot d d.lba_start in
    if ltb file_name_len (length dir)
    then some (answer false (with_error d kpc_disk))
    else if not (is_formatted boot)
    then some (answer true (with_error d kpc_disk))
    else if equals dir search_all_str
    then some (answer false (with_error d kpc_invalid_data))
    else elim (update_ind_status steps (drv_input d) boot dir (flags % 2 ^ 16) delete_or_create) [
      | none ↦ none
      | some u ↦
          (if u.ok
            then elim (balance_ind steps u.boot u.drive) [
              | none ↦ none
              | some a ↦ some (answer true a.drive)
            ]
            else some (answer false u.drive))
    ]

unfoldable pub remove_inode_directory : ℕ → Drive → ℕ → List ℕ → Option Answer
remove_inode_directory steps d flags dir = inode_directory_ctl_manip steps d flags dir true

unfoldable pub create_inode_directory : ℕ → Drive → ℕ → List ℕ → Option Answer
create_inode_directory steps d flags dir = inode_directory_ctl_manip steps d flags dir false

-- The node that `INodeCtlManip` asks the update to place or to clear.
unfoldable pub new_node : ℕ → List ℕ → Bool → ℕ → IndexNode
new_node flags name delete_or_create kind = record zero_node {
  created = if delete_or_create then 0 else 1;
  deleted = if delete_or_create then 1 else 0;
  kind = kind;
  flags = flags;
  hash_path = hash_64 name;
}

-- `INodeCtlManip`.
unfoldable pub inode_ctl_manip : ℕ → Drive → ℕ → List ℕ → List ℕ → Bool → ℕ → Option Answer
inode_ctl_manip steps d flags dir name delete_or_create kind =
    let boot = read_boot d d.lba_start in
    if ltb file_name_len (length name) || ltb file_name_len (length dir)
    then some (answer false (with_error d kpc_disk))
    else if not (is_formatted boot)
    then some (answer true (with_error d kpc_disk))
    else if equals dir search_all_str || has_separator name
    then some (answer false (with_error d kpc_invalid_data))
    else elim (update_in_status steps (drv_input d) boot dir
        (new_node flags name delete_or_create kind) delete_or_create) [
          | none ↦ none
          | some u ↦
              (if u.ok
                then elim (balance_ind steps u.boot u.drive) [
                  | none ↦ none
                  | some a ↦ some (answer true (with_error a.drive kpc_success))
                ]
                else some (answer false (with_error u.drive kpc_directory_not_found)))
        ]

unfoldable pub create_inode : ℕ → Drive → ℕ → List ℕ → List ℕ → ℕ → Option Answer
create_inode steps d flags dir name kind = inode_ctl_manip steps d flags dir name false kind

unfoldable pub delete_inode : ℕ → Drive → ℕ → List ℕ → List ℕ → ℕ → Option Answer
delete_inode steps d flags dir name kind = inode_ctl_manip steps d flags dir name true kind

-- `INodeExists`.
unfoldable pub inode_exists : ℕ → Drive → List ℕ → List ℕ → ℕ → Option Answer
inode_exists steps d dir name kind =
    let boot = read_boot d d.lba_start in
    if ltb file_name_len (length dir) || ltb file_name_len (length name)
    then some (answer false d)
    else if not (is_formatted boot)
    then some (answer false (with_error d kpc_disk))
    else elim (fetch_in steps (drv_input d) boot dir name kind) [
      | none ↦ none
      | some f ↦ some (elim f.node [
        | none ↦ answer false (with_error f.drive kpc_file_not_found)
        | some node ↦ answer true (with_error f.drive kpc_success)
      ])
    ]

-- The answer of `INodeManip`, with the drive and the block.
pub record Transfer : Type 0 where
  pub ok : Bool
  pub drive : Drive
  pub block : List ℕ

unfoldable pub block_lba : IndexNode → ℕ
block_lba start = start.offset_slice_high * 2 ^ 32 + start.offset_slice_low

-- The transfer of `size` bytes at the block of a node. The size is that of whole sectors, fewer than
-- 65536: what a controller makes of others is not modelled.
unfoldable pub transfer : Drive → IndexNode → ℕ → List ℕ → Bool → Transfer
transfer d start size block is_input =
    if start.offset_slice_low == 0 || start.hash_path == 0
    then record { ok = true; drive = d; block = block }
    else if is_input
    then (let (bytes, d') = input_bytes d (block_lba start) size block in
        record { ok = true; drive = d'; block = bytes })
    else if not (bit_and start.flags flags_read_only == 0)
    then record { ok = false; drive = d; block = block }
    else record { ok = true; drive = output_bytes d (block_lba start) size block; block = block }

-- `INodeManip`.
unfoldable pub inode_manip : ℕ → Drive → ℕ → List ℕ → List ℕ → List ℕ → ℕ → Bool → Option Transfer
inode_manip steps d size block dir name kind is_input =
    let boot = read_boot d d.lba_start in
    if ltb file_name_len (length dir) || ltb file_name_len (length name)
    then some (record { ok = false; drive = with_error d kpc_disk; block = block })
    else if not (is_formatted boot)
    then some (record { ok = false; drive = with_error d kpc_disk; block = block })
    else elim (fetch_in steps (drv_input d) boot dir name kind) [
      | none ↦ none
      | some f ↦ some (elim f.node [
        | none ↦ record { ok = false; drive = with_error f.drive kpc_file_not_found; block = block }
        | some start ↦ transfer f.drive start size block is_input
      ])
    ]
