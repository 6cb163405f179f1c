-- ===== src/Hefs/Directories.antt =====
-- The creation and the removal of a directory: `hefsi_update_ind_status` of
-- private/minkernel/src/FS/OpenHeFS+FileSystemParser.cpp. The boot node and the drive are there, and
-- `MUST_PASS` is the release build's, which tests nothing. The local `parent_location` is 0 throughout,
-- so that what is under `if (parent_location)` never runs.
use krnl.Kpc.{kpc_success, kpc_disk}
use krnl.Base.{
  ℕ, ◌+◌, ◌-◌, ◌%◌, ◌^◌, Bool, true, false, not, ◌&&◌, ◌||◌, List, Option, none, some, ltb, ◌==◌,
  if◌then◌else◌,
}
use krnl.Hefs.Words.{hash_64}
use krnl.Hefs.Nodes.{BootNode, Directory, zero_directory}
use krnl.Hefs.Sectors.{seal_boot, seal_directory}
use krnl.Hefs.Drive.{Drive, drv_input, read_directory, write_directory, write_boot}
use krnl.Hefs.Scan.{Verdict, here, onward, Found, at, nowhere, unfinished, scan, next_position}
use krnl.Hefs.Tree.{red, black}

-- What the update answers, with the boot node and the drive it leaves.
pub record Updated : Type 0 where
  pub ok : Bool
  pub boot : BootNode
  pub drive : Drive

-- A directory that was created and then deleted, or was never there.
unfoldable pub is_vacant : Directory → Bool
is_vacant tmpdir = (tmpdir.created == 0 && not (tmpdir.deleted == 0)) || tmpdir.hash_path == 0

unfoldable pub is_live : List ℕ → Directory → Bool
is_live dir_name tmpdir =
    not (tmpdir.created == 0) && tmpdir.deleted == 0 && hash_64 dir_name == tmpdir.hash_path

-- `expr`.
unfoldable pub is_wanted : List ℕ → Bool → Directory → Bool
is_wanted dir_name delete_or_create tmpdir =
    if delete_or_create then is_live dir_name tmpdir else is_vacant tmpdir

-- The position that a pass reads, for a region that starts at 0 too.
abbrev pub packet_lba : ℕ → ℕ
packet_lba start = if start == 0 then 512 else start

unfoldable pub judge_ind : Drive → List ℕ → Bool → ℕ → Verdict
judge_ind d dir_name delete_or_create start =
    if is_wanted dir_name delete_or_create (read_directory d (packet_lba start))
    then here
    else onward

unfoldable pub past_update : BootNode → ℕ → Bool
past_update boot start = ltb boot.end_ind start || start == 0

-- The loop for a place for the child: it tests the hash of `tmpdir`, the directory replaced.
unfoldable pub judge_child : Drive → Directory → ℕ → Verdict
judge_child d tmpdir child =
    let tmpend = read_directory d child in
    if (tmpend.created == 0 && not (tmpend.deleted == 0)) || tmpdir.hash_path == 0
    then here
    else onward

unfoldable pub find_child : ℕ → Drive → BootNode → Directory → ℕ → Found
find_child steps d boot tmpdir next =
    scan (judge_child d tmpdir) (ltb boot.end_ind) steps (next_position next)

-- The directory that is written, but for its child and its checksum.
unfoldable pub new_dirent : BootNode → List ℕ → ℕ → Bool → Directory → Directory
new_dirent boot dir_name flags delete_or_create tmpdir = record zero_directory {
  hash_path = if delete_or_create then 0 else hash_64 dir_name;
  created = if delete_or_create then 0 else 1;
  deleted = if delete_or_create then 1 else 0;
  flags = flags;
  next = tmpdir.next;
  prev = if tmpdir.prev == 0 then boot.start_ind else tmpdir.prev;
  parent = if tmpdir.parent == 0 then boot.start_ind else tmpdir.parent;
  child = tmpdir.child;
  color = if tmpdir.color == 0 then (if tmpdir.next == 0 then black else red) else tmpdir.color;
}

-- A directory without a child is given the position found, or the start of the region when that is
-- past its end.
unfoldable pub adopt : BootNode → Directory → Directory → Found → Option Directory
adopt boot tmpdir dirent found =
    if tmpdir.child == 0
    then elim found [
      | unfinished ↦ none
      | nowhere ↦ some (record dirent { color = red; child = boot.start_ind })
      | at child ↦ some (record dirent {
        color = red;
        child = if ltb boot.end_ind child then boot.start_ind else child;
      })
    ]
    else some dirent

unfoldable pub count_ind : BootNode → Bool → BootNode
count_ind boot delete_or_create = record boot {
  ind_count =
      if delete_or_create
      then (boot.ind_count + (2 ^ 64 - 1)) % 2 ^ 64
      else (boot.ind_count + 1) % 2 ^ 64;
}

-- The writes at the end: the directory at the position of the pass, then the boot node.
unfoldable pub store_ind : Drive → BootNode → Bool → ℕ → Directory → Updated
store_ind d boot delete_or_create prev_start dirent =
    let stored = write_directory (drv_input d) prev_start (seal_directory dirent) in
    let counted = seal_boot (count_ind boot delete_or_create) in
    record {
      ok = true;
      boot = counted;
      drive = write_boot (record stored { error = kpc_success }) stored.lba_start counted;
    }

unfoldable pub replace_ind : ℕ → Drive → BootNode → List ℕ → ℕ → Bool → ℕ → Option Updated
replace_ind steps d boot dir_name flags delete_or_create start =
    let tmpdir = read_directory d (packet_lba start) in
    let dirent = new_dirent boot dir_name flags delete_or_create tmpdir in
    elim (adopt boot tmpdir dirent (find_child steps d boot tmpdir dirent.next)) [
      | none ↦ none
      | some adopted ↦ some (store_ind d boot delete_or_create start adopted)
    ]

-- `hefsi_update_ind_status`; `none` when a loop is not over within the steps.
unfoldable pub update_ind_status : ℕ → Drive → BootNode → List ℕ → ℕ → Bool → Option Updated
update_ind_status steps d boot dir_name flags delete_or_create =
    elim (scan (judge_ind d dir_name delete_or_create) (past_update boot) steps boot.start_ind) [
      | unfinished ↦ none
      | nowhere ↦ some (record { ok = false; boot = boot; drive = record d { error = kpc_disk } })
      | at start ↦ replace_ind steps d boot dir_name flags delete_or_create start
    ]
