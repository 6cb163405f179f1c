-- ===== src/Hefs/Lookup.antt =====
-- A file that is created is found by the next search.
use krnl.Base.{
  ℕ, ◌+◌, ◌*◌, ◌%◌, ◌^◌, ◌≤◌, ◌<◌, ◌≡◌, ◌≢◌, refl, sym, ap, ◌∙◌, subst, true, false, List, some,
  arith, length, get_or, set, length-set, ltb,
}
use krnl.Hefs.Words.{hash_64}
use krnl.Hefs.Nodes.{BootNode, IndexNode, Directory}
use krnl.Hefs.Sectors.{seal_boot, seal_node, seal_directory, as_directory}
use krnl.Hefs.Drive.{Drive, read_node, read_directory}
use krnl.Hefs.Scan.{Verdict, here, first_index}
use krnl.Hefs.Directories.{Updated}
use krnl.Hefs.Files.{
  judge_fetch, past_fetch, judge_update, past_update_in, take_slice, place_node, bump, create_in,
  update_at, update_in_status, wanted_slice, is_free_slice,
}
use krnl.Hefs.Walks.{Reaches, scan-Reaches, Reaches_position, Reaches_meets, Reaches-judge}
use krnl.Hefs.Create.{
  Room, created, created_untouched, created_directory, created_node, created_error,
}
use krnl.Hefs.Search.{Finds, fetch_in-Finds}
use krnl.Hefs.Slices.{get_or-set_self}
use krnl.Hefs.Verdicts.{
  judge_update_here, free_slice_holds, judge_fetch_file, judge_fetch_goes, past_fetch_inside,
  past_update_in_inside,
}

take_slice_fields :
    (boot : BootNode) (dir : Directory) (index : ℕ)
    → ((take_slice boot dir index).hash_path ≡ dir.hash_path)
      × ((take_slice boot dir index).in_slices ≡ set dir.in_slices index boot.start_in)
unfolding take_slice seal_directory
take_slice_fields boot dir index = (refl, refl)

place_node_fields :
    (boot : BootNode) (node : IndexNode)
    → ((place_node boot node).hash_path ≡ node.hash_path)
      × ((place_node boot node).kind ≡ node.kind)
unfolding place_node seal_node
place_node_fields boot node = (refl, refl)

bump_fields :
    (boot : BootNode)
    → ((bump boot).start_ind ≡ boot.start_ind)
      × ((bump boot).end_ind ≡ boot.end_ind)
      × ((bump boot).start_in ≡ (boot.start_in + 512) % 2 ^ 64)
      × ((bump boot).end_in ≡ boot.end_in)
unfolding bump seal_boot
bump_fields boot = (refl, refl, refl, refl)

-- A directory with a free slice is updated.
create_result :
    (steps : ℕ) (d : Drive) (boot : BootNode) (dir_name : List ℕ) (node : IndexNode) (k p index : ℕ)
    → Room d boot p
    → Reaches
        (judge_update d dir_name node.hash_path false)
        (past_update_in boot)
        k
        boot.start_ind
        p
    → k < steps
    → wanted_slice d node.hash_path false (read_directory d p) ≡ some index
    → update_in_status steps d boot dir_name node false
      ≡ some (create_in d boot node p (read_directory d p) index)
unfolding update_in_status update_at
create_result steps d boot dir_name node k p index room r enough wanted =
    let low : ltb boot.end_ind boot.start_ind ≡ false = ground (arith, room.region) in
    let low_in : ltb boot.end_in boot.start_in ≡ false = ground (arith, room.node_room) in
    let low_block : ltb boot.end_block boot.start_block ≡ false = ground (arith, room.block_room) in
    rw
      (
        low,
        low_in,
        low_block,
        scan-Reaches (judge_update d dir_name node.hash_path false) (past_update_in boot) steps
            boot.start_ind p k r enough,
        update_at,
        wanted,
      )
      refl

-- The file is there where it was put.
created_judge :
    (d : Drive) (boot : BootNode) (dir_name file_name : List ℕ) (node : IndexNode) (p index : ℕ)
    → Room d boot p
    → boot.start_ind ≤ p
    → hash_64 dir_name ≢ 0
    → node.hash_path ≡ hash_64 file_name
    → hash_64 dir_name ≡ (read_directory d p).hash_path
    → index < length (read_directory d p).in_slices
    → judge_fetch (created d boot node p (read_directory d p) index) dir_name file_name node.kind p
      ≡ here
created_judge d boot dir_name file_name node p index room after named same matches inside =
    let dir = read_directory d p in
    let made = created d boot node p dir index in
    let read : read_directory made p ≡ take_slice boot dir index =
      created_directory d boot node p dir index room.writable room.boot_there
        (omega (arith, room.boot_there, room.boot_apart)) (omega (arith, room.node_apart))
        (omega (arith, room.boot_apart)) in
    let slices : (read_directory made p).in_slices ≡ set dir.in_slices index boot.start_in =
      ap (λ e. e.in_slices) read ∙ (take_slice_fields boot dir index).1 in
    let slot : get_or (read_directory made p).in_slices index 0 ≡ boot.start_in =
      ap (λ vs. get_or vs index 0) slices
      ∙ get_or-set_self dir.in_slices index boot.start_in inside in
    let file : read_node made (get_or (read_directory made p).in_slices index 0)
        ≡ place_node boot node =
      ap (read_node made) slot
      ∙ created_node d boot node p dir index room.writable room.boot_there
          (omega (arith, room.node_apart)) (omega (arith, room.node_apart, room.boot_apart)) in
    judge_fetch_file made dir_name file_name node.kind p index named
      (ap (λ e. e.hash_path) read ∙ (take_slice_fields boot dir index).0 ∙ sym matches)
      (subst (λ n. index < n)
        (sym (ap length slices ∙ length-set dir.in_slices index boot.start_in)) inside)
      (ap (λ n. n.hash_path) file ∙ (place_node_fields boot node).0 ∙ same)
      (ap (λ n. n.kind) file ∙ (place_node_fields boot node).1)

bumped_reaches :
    (boot : BootNode) (judge : ℕ → Verdict) {k p : ℕ}
    → Reaches judge (past_fetch boot) k boot.start_ind p
    → Reaches judge (past_fetch (bump boot)) k (bump boot).start_ind p
unfolding past_fetch bump seal_boot
bumped_reaches boot judge r = r

wanted_free :
    (d : Drive) (hash_file index : ℕ) (dir : Directory)
    → wanted_slice d hash_file false dir ≡ some index
    → first_index is_free_slice dir.in_slices ≡ some index
unfolding wanted_slice
wanted_free d hash_file index dir e = e

created_keeps :
    (d : Drive) (boot : BootNode) (node : IndexNode) (k p i : ℕ) (dir : Directory) (index : ℕ)
    → Room d boot p
    → p ≡ boot.start_ind + 512 * k
    → i < k
    → read_directory (created d boot node p dir index) (boot.start_ind + 512 * i)
      ≡ read_directory d (boot.start_ind + 512 * i)
unfolding read_directory
created_keeps d boot node k p i dir index room place lt = ap as_directory (
    created_untouched d boot node p dir index room.writable room.boot_there
      (boot.start_ind + 512 * i) (omega (arith, place, lt))
      (omega (arith, place, lt, room.node_apart)) (omega (arith, room.boot_apart)))

-- What a creation answers, and a search after it.
pub CreateThenFetch : ℕ → Drive → BootNode → List ℕ → List ℕ → IndexNode → Type 0
CreateThenFetch steps d boot dir_name file_name node =
    (u : Updated) × (update_in_status steps d boot dir_name node false ≡ some u)
    × (u.ok ≡ true)
    × Finds steps u.drive u.boot dir_name file_name node.kind

-- A file that is created is found by the next search, both within the steps to its directory: the
-- directory has a path and a free slice, there is room for the file, no directory before it is
-- removed, and it is not at the end of the region.
pub update_in_status-fetch_in :
    (steps : ℕ) (d : Drive) (boot : BootNode) (dir_name file_name : List ℕ) (node : IndexNode)
    (k p : ℕ)
    → Room d boot p
    → hash_64 dir_name ≢ 0
    → node.hash_path ≡ hash_64 file_name
    → Reaches
        (judge_update d dir_name node.hash_path false)
        (past_update_in boot)
        k
        boot.start_ind
        p
    → k < steps
    → ((i : ℕ) → i < k → (read_directory d (boot.start_ind + 512 * i)).hash_path ≢ 0)
    → (boot.start_ind < p → p < boot.end_ind)
    → CreateThenFetch steps d boot dir_name file_name node
unfolding CreateThenFetch create_in
update_in_status-fetch_in steps d boot dir_name file_name node k p room named same r enough kept
      inside =
    let judge = judge_update d dir_name node.hash_path false in
    let place =
      Reaches_position judge (past_update_in boot) boot.end_ind (past_update_in_inside boot)
        room.region_small room.region r in
    let (matches, index, wanted) =
      judge_update_here d dir_name node.hash_path false p
        (Reaches-judge judge (past_update_in boot) r) in
    let slot =
      free_slice_holds (read_directory d p).in_slices index
        (wanted_free d node.hash_path index (read_directory d p) wanted) in
    let made = created d boot node p (read_directory d p) index in
    let (start_ind, end_ind, start_in, end_in) = bump_fields boot in
    let (j, q, le, r', found) =
      Reaches_meets judge (judge_fetch made dir_name file_name node.kind) (past_update_in boot)
        (past_fetch boot) boot.end_ind (past_update_in_inside boot) room.region_small room.region r
        (λ q le lt. past_fetch_inside boot q (omega (arith, le, inside (omega (arith, lt, le)))))
        (λ i lt. judge_fetch_goes made dir_name file_name node.kind (boot.start_ind + 512 * i) (λ e.
          kept i lt (
            ap (λ s. s.hash_path)
              (sym (created_keeps d boot node k p i (read_directory d p) index room place.0 lt))
            ∙ e)))
        (created_judge d boot dir_name file_name node p index room (omega (arith, place.0)) named
          same matches slot.1) in
    (
      create_in d boot node p (read_directory d p) index,
      create_result steps d boot dir_name node k p index room r enough wanted,
      refl,
      fetch_in-Finds steps made (bump boot) dir_name file_name node.kind j q
          (created_error d boot node p (read_directory d p) index room.writable room.boot_there)
          (omega (arith, start_ind, end_ind, room.region))
          (omega (arith, start_in, end_in, room.node_room, room.node_small))
          (bumped_reaches boot (judge_fetch made dir_name file_name node.kind) r') (omega arith),
    )
