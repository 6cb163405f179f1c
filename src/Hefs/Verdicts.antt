-- ===== src/Hefs/Verdicts.antt =====
-- What the tests of the scans for files say of the directory they stop at.
use krnl.Base.{
  ℕ, ◌<◌, ◌≤◌, ◌≡◌, ◌≢◌, refl, Bool, true, false, List, some, arith, length, get_or, ◌==◌, ==→eq,
  Bool-cases, inl, inr, Option-cases,
}
use krnl.Hefs.Words.{hash_64}
use krnl.Hefs.Nodes.{BootNode, IndexNode}
use krnl.Hefs.Drive.{Drive, read_node, read_directory}
use krnl.Hefs.Scan.{here, give_up, first_index}
use krnl.Hefs.Files.{
  is_file, judge_fetch, node_in, wanted_slice, judge_update, past_fetch, past_update_in,
  is_free_slice,
}
use krnl.Hefs.Slices.{first_index_holds, first_index_exists}

pub judge_update_here :
    (d : Drive) (dir_name : List ℕ) (hash_file : ℕ) (remove : Bool) (p : ℕ)
    → judge_update d dir_name hash_file remove p ≡ here
    → (hash_64 dir_name ≡ (read_directory d p).hash_path)
      × (index : ℕ) × (wanted_slice d hash_file remove (read_directory d p) ≡ some index)
unfolding judge_update
judge_update_here d dir_name hash_file remove p e =
    elim (Bool-cases (hash_64 dir_name == (read_directory d p).hash_path)) [
      | inr no_match ↦ absurd (ground (arith, e, no_match))
      | inl matches ↦ elim (Option-cases (wanted_slice d hash_file remove (read_directory d p))) [
        | inl gone ↦ absurd (ground (arith, e, matches, gone))
        | inr (index, there) ↦
            (==→eq (hash_64 dir_name) (read_directory d p).hash_path matches, index, there)
      ]
    ]

pub free_slice_holds :
    (vs : List ℕ) (index : ℕ)
    → first_index is_free_slice vs ≡ some index
    → (get_or vs index 0 ≡ 0) × (index < length vs)
unfolding is_free_slice
free_slice_holds vs index e =
    let held = first_index_holds is_free_slice vs index e in
    (==→eq (get_or vs index 0) 0 held.0, held.1)

pub judge_fetch_here :
    (d : Drive) (dir_name file_name : List ℕ) (kind p : ℕ)
    → judge_fetch d dir_name file_name kind p ≡ here
    → (n : IndexNode) × (node_in d file_name kind (read_directory d p) ≡ some n)
      × (n.hash_path ≡ hash_64 file_name)
      × (n.kind ≡ kind)
unfolding judge_fetch node_in is_file
judge_fetch_here d dir_name file_name kind p e =
    elim (Option-cases (first_index (is_file d file_name kind) (read_directory d p).in_slices)) [
      | inl gone ↦ absurd (ground (arith, e, gone))
      | inr (index, there) ↦
          (let held =
              first_index_holds (is_file d file_name kind) (read_directory d p).in_slices index
                there in
            (
              read_node d (get_or (read_directory d p).in_slices index 0),
              rw (node_in, there) refl,
              ground (arith, held.0),
              ground (arith, held.0),
            ))
    ]

pub judge_fetch_file :
    (d : Drive) (dir_name file_name : List ℕ) (kind p index : ℕ)
    → hash_64 dir_name ≢ 0
    → (read_directory d p).hash_path ≡ hash_64 dir_name
    → index < length (read_directory d p).in_slices
    → (read_node d (get_or (read_directory d p).in_slices index 0)).hash_path ≡ hash_64 file_name
    → (read_node d (get_or (read_directory d p).in_slices index 0)).kind ≡ kind
    → judge_fetch d dir_name file_name kind p ≡ here
unfolding judge_fetch is_file
judge_fetch_file d dir_name file_name kind p index named matches inside same_hash same_kind =
    let (j, there) =
      first_index_exists (is_file d file_name kind) (read_directory d p).in_slices index inside
        (ground (arith, same_hash, same_kind)) in
    rw there (ground arith)

-- The search gives up at a directory without a path only.
pub judge_fetch_goes :
    (d : Drive) (dir_name file_name : List ℕ) (kind q : ℕ)
    → (read_directory d q).hash_path ≢ 0
    → judge_fetch d dir_name file_name kind q ≢ give_up
unfolding judge_fetch
judge_fetch_goes d dir_name file_name kind q there e =
    elim (Option-cases (first_index (is_file d file_name kind) (read_directory d q).in_slices)) [
      | inl gone ↦ ground (arith, e, gone)
      | inr (index, found) ↦ ground (arith, e, found)
    ]

pub past_fetch_inside : (boot : BootNode) (q : ℕ) → q < boot.end_ind → past_fetch boot q ≡ false
unfolding past_fetch
past_fetch_inside boot q h = ground arith

pub past_update_in_inside :
    (boot : BootNode) (q : ℕ) → past_update_in boot q ≡ false → q ≤ boot.end_ind
unfolding past_update_in
past_update_in_inside boot q h = ground arith

pub past_update_in_over :
    (boot : BootNode) (q : ℕ) → boot.end_ind < q → past_update_in boot q ≡ true
unfolding past_update_in
past_update_in_over boot q h = ground arith

pub past_fetch_over : (boot : BootNode) (q : ℕ) → boot.end_ind < q → past_fetch boot q ≡ true
unfolding past_fetch
past_fetch_over boot q h = ground arith
