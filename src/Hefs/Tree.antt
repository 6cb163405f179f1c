-- ===== src/Hefs/Tree.antt =====
-- The links between the directories of private/minkernel/src/FS/OpenHeFS+FileSystemParser.cpp:
-- `hefsi_traverse_tree`, `hefsi_rotate_tree` and `hefsi_balance_ind`. The drive and the directory that
-- the functions test for null are there.
use krnl.Kpc.{kpc_success, kpc_disk_is_corrupted}
use krnl.Base.{
  ℕ, zero, suc, Bool, true, false, not, ◌||◌, Option, none, some, ltb, ◌==◌, if◌then◌else◌,
}
use krnl.Hefs.Nodes.{BootNode, Directory}
use krnl.Hefs.Sectors.{directory_checksum, seal_directory}
use krnl.Hefs.Drive.{Drive, Answer, answer, drv_input, read_directory, write_directory}
use krnl.Hefs.Scan.{next_position}

abbrev pub red : ℕ
red = 100

abbrev pub black : ℕ
black = 101

-- A pass of the loop of `hefsi_traverse_tree`: to another position, with the flag set; to the start of
-- the region; or out of the loop.
pub data Step : Type 0 where
  follow : ℕ → Step
  restart : Step
  leave : ℕ → Step

unfoldable pub traverse_step : Drive → ℕ → Bool → Step
traverse_step d start check_is_good =
    let dir_tmp = read_directory d start in
    if not d.good
    then leave start
    else if not (dir_tmp.next == 0)
    then (if check_is_good then leave start else follow dir_tmp.next)
    else if not (dir_tmp.prev == 0)
    then (if check_is_good then leave start else follow dir_tmp.prev)
    else if not (dir_tmp.parent == 0)
    then (if check_is_good then leave start else follow dir_tmp.parent)
    else if start == 0
    then restart
    else leave (next_position start)

unfoldable pub traverse_loop : ℕ → Drive → ℕ → ℕ → Bool → Option ℕ
traverse_loop zero d ind_start start check_is_good = none
traverse_loop (suc steps) d ind_start start check_is_good =
    elim (traverse_step d start check_is_good) [
      | follow lba ↦ traverse_loop steps d ind_start lba true
      | restart ↦ traverse_loop steps d ind_start ind_start check_is_good
      | leave lba ↦ some lba
    ]

-- `hefsi_traverse_tree`, as the position it moves `start` to.
unfoldable pub traverse_tree : ℕ → Drive → ℕ → ℕ → Option ℕ
traverse_tree steps d ind_start start = elim (traverse_loop steps d ind_start start false) [
  | none ↦ none
  | some lba ↦ (if next_position lba == 0 then some ind_start else some (next_position lba))
]

-- The writes of `hefsi_rotate_tree` for the directories whose children are swapped: the sibling where
-- the parent of `cur` is, and `cur` itself.
unfoldable pub swap_children : Drive → ℕ → Directory → Directory → Drive
swap_children d start cur sibling =
    write_directory
      (write_directory d cur.parent (seal_directory (record sibling { child = cur.child }))) start
      (seal_directory (record cur { child = sibling.child }))

-- Those for a child: its parent, and a checksum.
unfoldable pub reparent : Drive → ℕ → ℕ → ℕ → Drive
reparent d lba parent checksum =
    write_directory (drv_input d) lba
      (record (read_directory d lba) { parent = parent; checksum = checksum })

-- All writes, once both directories are read; the checksum of the children is the sibling's.
unfoldable pub rotate_pair : Drive → ℕ → Directory → Directory → Drive
rotate_pair d start cur sibling =
    let checksum = directory_checksum (seal_directory (record sibling { child = cur.child })) in
    reparent (reparent (swap_children d start cur sibling) sibling.child cur.parent checksum)
      cur.child start checksum

-- `hefsi_rotate_tree`.
unfoldable pub rotate_tree : Drive → ℕ → Drive
rotate_tree d start =
    let cur = read_directory d start in
    let sibling = read_directory d cur.prev in
    if start == 0
    then d
    else if cur.hash_path == 0 || sibling.hash_path == 0
    then drv_input d
    else rotate_pair (drv_input d) start cur sibling

-- The colour that a pass of `hefsi_balance_ind` leaves in its copy of the directory at `start`, and
-- the drive after the writes that the colour asks for.
unfoldable pub recolor : BootNode → Drive → ℕ → Directory → Drive × Directory
recolor boot d start dir =
    let rooted = if start == boot.start_ind then record dir { color = black } else dir in
    let d1 = if start == boot.start_ind then write_directory d start rooted else d in
    if rooted.color == black
    then (if rooted.child == 0
        then (write_directory d1 start rooted, rooted)
        else (rotate_tree d1 start, record rooted { color = red }))
    else (d1, rooted)

-- The checksum is put right at the end of the pass.
unfoldable pub balance_one : BootNode → Drive → ℕ → Drive
balance_one boot d start =
    let (d1, dir) = recolor boot (drv_input d) start (read_directory d start) in
    if directory_checksum dir == dir.checksum
    then d1
    else write_directory d1 start (seal_directory dir)

unfoldable pub balance_loop : ℕ → BootNode → Drive → ℕ → Option Answer
balance_loop zero boot d start = none
balance_loop (suc steps) boot d start =
    let rest = balance_loop steps boot (balance_one boot d start) (next_position start) in
    if start == 0 || ltb boot.end_ind start
    then some (answer true (record d { error = kpc_success }))
    else if not d.good
    then some (answer false (record d { error = kpc_disk_is_corrupted }))
    else rest

-- `hefsi_balance_ind`.
unfoldable pub balance_ind : ℕ → BootNode → Drive → Option Answer
balance_ind steps boot d = balance_loop steps boot d boot.start_ind
