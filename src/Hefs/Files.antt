-- ===== src/Hefs/Files.antt =====
-- The index nodes of a directory: `hefsi_fetch_in` and `hefsi_update_in_status` of
-- private/minkernel/src/FS/OpenHeFS+FileSystemParser.cpp. What the functions print is left out, and the
-- boot node and the drive are there.
use krnl.Kpc.{kpc_file_not_found, kpc_disk_is_corrupted}
use krnl.Base.{
  ℕ, ◌+◌, ◌-◌, ◌/◌, ◌%◌, ◌^◌, Bool, true, false, not, ◌&&◌, ◌||◌, List, Option, none, some, ltb,
  leb, ◌==◌, if◌then◌else◌, get_or, set,
}
use krnl.Hefs.Words.{hash_64}
use krnl.Hefs.Nodes.{BootNode, IndexNode, Directory}
use krnl.Hefs.Sectors.{seal_boot, seal_node, seal_directory}
use krnl.Hefs.Drive.{
  Drive, drv_input, read_node, read_directory, write_directory, write_node, write_boot,
}
use krnl.Hefs.Scan.{Verdict, here, give_up, onward, at, nowhere, unfinished, scan, first_index}
use krnl.Hefs.Directories.{Updated}

-- An index node of the name and the kind.
unfoldable pub is_file : Drive → List ℕ → ℕ → ℕ → Bool
is_file d file_name kind lba =
    let node = read_node d lba in hash_64 file_name == node.hash_path && node.kind == kind

unfoldable pub judge_fetch : Drive → List ℕ → List ℕ → ℕ → ℕ → Verdict
judge_fetch d dir_name file_name kind start =
    let dir = read_directory d start in
    if dir.hash_path == 0
    then give_up
    else if hash_64 dir_name == dir.hash_path
    then elim (first_index (is_file d file_name kind) dir.in_slices) [
      | none ↦ onward
      | some inode_index ↦ here
    ]
    else onward

unfoldable pub past_fetch : BootNode → ℕ → Bool
past_fetch boot start = leb boot.end_ind start

-- The node in the slice that the loop stops at.
unfoldable pub node_in : Drive → List ℕ → ℕ → Directory → Option IndexNode
node_in d file_name kind dir = elim (first_index (is_file d file_name kind) dir.in_slices) [
  | none ↦ none
  | some inode_index ↦ some (read_node d (get_or dir.in_slices inode_index 0))
]

-- What a search answers, with the drive it leaves.
pub record Fetched : Type 0 where
  pub node : Option IndexNode
  pub drive : Drive

-- `hefsi_fetch_in`; a transfer clears the error, so that the test for a corrupted disk can only be met
-- in the first pass.
unfoldable pub fetch_in : ℕ → Drive → BootNode → List ℕ → List ℕ → ℕ → Option Fetched
fetch_in steps d boot dir_name file_name kind =
    if ltb boot.end_ind boot.start_ind || ltb boot.end_in boot.start_in
    then some (record { node = none; drive = d })
    else if d.error == kpc_disk_is_corrupted
    then some (record { node = none; drive = d })
    else elim (scan (judge_fetch d dir_name file_name kind) (past_fetch boot) steps
        boot.start_ind) [
          | unfinished ↦ none
          | nowhere ↦ some (record { node = none; drive = record d { error = kpc_file_not_found } })
          | at start ↦ some (record {
            node = node_in d file_name kind (read_directory d start);
            drive = drv_input d;
          })
        ]

-- The slice that a creation takes, and the one that a deletion clears.
unfoldable pub is_free_slice : ℕ → Bool
is_free_slice lba = lba == 0

unfoldable pub is_slice_of : Drive → ℕ → ℕ → Bool
is_slice_of d hash_file lba = not (lba == 0) && (read_node d lba).hash_path == hash_file

unfoldable pub wanted_slice : Drive → ℕ → Bool → Directory → Option ℕ
wanted_slice d hash_file delete_or_create dir =
    if delete_or_create
    then first_index (is_slice_of d hash_file) dir.in_slices
    else first_index is_free_slice dir.in_slices

unfoldable pub judge_update : Drive → List ℕ → ℕ → Bool → ℕ → Verdict
judge_update d dir_name hash_file delete_or_create start =
    let dir = read_directory d start in
    if hash_64 dir_name == dir.hash_path
    then elim (wanted_slice d hash_file delete_or_create dir) [
      | none ↦ onward
      | some inode_index ↦ here
    ]
    else onward

unfoldable pub past_update_in : BootNode → ℕ → Bool
past_update_in boot start = ltb boot.end_ind start || start == 0

-- The directory with the start of the region of index nodes in a slice.
unfoldable pub take_slice : BootNode → Directory → ℕ → Directory
take_slice boot dir inode_index = seal_directory (record dir {
  in_slices = set dir.in_slices inode_index boot.start_in;
  entry_count = (dir.entry_count + 1) % 2 ^ 32;
})

-- The node with the position of its block, in two halves.
unfoldable pub place_node : BootNode → IndexNode → IndexNode
place_node boot node = seal_node (record node {
  offset_slice_low = boot.start_block % 2 ^ 32;
  offset_slice_high = boot.start_block / 2 ^ 32 % 2 ^ 32;
})

-- The boot node with both cursors moved on.
unfoldable pub bump : BootNode → BootNode
bump boot = seal_boot (record boot {
  start_in = (boot.start_in + 512) % 2 ^ 64;
  start_block = (boot.start_block + 512) % 2 ^ 64;
})

unfoldable pub create_in : Drive → BootNode → IndexNode → ℕ → Directory → ℕ → Updated
create_in d boot node start dir inode_index =
    let d1 = write_directory (drv_input d) start (take_slice boot dir inode_index) in
    let d2 = write_node d1 boot.start_in (place_node boot node) in
    record { ok = true; boot = bump boot; drive = write_boot d2 d2.lba_start (bump boot) }

unfoldable pub drop_slice : Directory → ℕ → Directory
drop_slice dir inode_index =
    seal_directory (record dir {
      in_slices = set dir.in_slices inode_index 0;
      entry_count = dir.entry_count - 1;
    })

-- The cursors stay.
unfoldable pub delete_in : Drive → BootNode → IndexNode → ℕ → Directory → ℕ → Updated
delete_in d boot node start dir inode_index =
    let d1 = write_boot (drv_input d) d.lba_start (seal_boot boot) in
    let gone = record node { offset_slice_low = 0; offset_slice_high = 0 } in
    let d2 = write_node d1 (get_or dir.in_slices inode_index 0) gone in
    record {
      ok = true;
      boot = seal_boot boot;
      drive = write_directory d2 start (drop_slice dir inode_index);
    }

unfoldable pub update_at : Drive → BootNode → IndexNode → Bool → ℕ → Option Updated
update_at d boot node delete_or_create start =
    let dir = read_directory d start in
    elim (wanted_slice d node.hash_path delete_or_create dir) [
      | none ↦ none
      | some inode_index ↦
          (if delete_or_create
            then some (delete_in d boot node start dir inode_index)
            else some (create_in d boot node start dir inode_index))
    ]

-- `hefsi_update_in_status`; `none` when the loop is not over within the steps.
unfoldable pub update_in_status : ℕ → Drive → BootNode → List ℕ → IndexNode → Bool → Option Updated
update_in_status steps d boot dir_name node delete_or_create =
    if (ltb boot.end_ind boot.start_ind || ltb boot.end_in boot.start_in)
      || ltb boot.end_block boot.start_block
    then some (record { ok = false; boot = boot; drive = d })
    else elim (scan (judge_update d dir_name node.hash_path delete_or_create) (past_update_in boot)
        steps boot.start_ind) [
          | unfinished ↦ none
          | nowhere ↦
              some (record {
                ok = false;
                boot = boot;
                drive = record d { error = kpc_file_not_found };
              })
          | at start ↦ update_at d boot node delete_or_create start
        ]
