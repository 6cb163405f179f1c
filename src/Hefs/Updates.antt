-- ===== src/Hefs/Updates.antt =====
-- The outcomes of `hefsi_update_in_status`.
use krnl.Base.{
  ℕ, ◌≤◌, ◌<◌, ◌≡◌, ◌≢◌, ◌⊎◌, inl, inr, refl, subst, Bool, true, false, ◌||◌, List, Option, none,
  some, arith, length, get_or, ltb,
}
use krnl.Hefs.Nodes.{BootNode, IndexNode, Directory}
use krnl.Hefs.Drive.{Drive, read_directory}
use krnl.Hefs.Scan.{Verdict, Found, at, nowhere, unfinished, scan}
use krnl.Hefs.Directories.{Updated}
use krnl.Hefs.Files.{
  create_in, delete_in, wanted_slice, judge_update, past_update_in, update_at, update_in_status,
  is_slice_of,
}
use krnl.Hefs.Slices.{first_index_holds}
use krnl.Hefs.Verdicts.{free_slice_holds}
use krnl.Hefs.Exclusive.{row_at, InRegion, Exclusive}
use krnl.Hefs.Ownership.{create_in-Exclusive, delete_in-Exclusive}

pub Found-cases : (f : Found) → (f ≡ unfinished) ⊎ ((f ≡ nowhere) ⊎ ((p : ℕ) × (f ≡ at p)))
Found-cases unfinished = inl refl
Found-cases nowhere = inr (inl refl)
Found-cases (at p) = inr (inr (p, refl))

module _ (steps : ℕ) (d : Drive) (boot : BootNode) (dir_name : List ℕ) (node : IndexNode)
    (remove : Bool) where
  abbrev pub judge : ℕ → Verdict
  judge = judge_update d dir_name node.hash_path remove

  abbrev pub bad_regions : Bool
  bad_regions =
      (ltb boot.end_ind boot.start_ind || ltb boot.end_in boot.start_in)
      || ltb boot.end_block boot.start_block

  abbrev pub scanned : Found
  scanned = scan judge (past_update_in boot) steps boot.start_ind

  abbrev pub result : Option Updated
  result = update_in_status steps d boot dir_name node remove

  pub update_bad :
      bad_regions ≡ true → result ≡ some (record { ok = false; boot = boot; drive = d })
  unfolding update_in_status
  update_bad e = rw (update_in_status, e) refl

  pub update_unfinished : bad_regions ≡ false → scanned ≡ unfinished → result ≡ none
  unfolding update_in_status
  update_unfinished e f = rw (update_in_status, e, f) refl

  pub update_nowhere :
      bad_regions ≡ false
      → scanned ≡ nowhere
      → result ≡ some (record { ok = false; boot = boot; drive = record d { error = 35 } })
  unfolding update_in_status
  update_nowhere e f = rw (update_in_status, e, f) refl

  pub update_found :
      (p : ℕ) → bad_regions ≡ false → scanned ≡ at p → result ≡ update_at d boot node remove p
  unfolding update_in_status
  update_found p e f = rw (update_in_status, e, f) refl

pub update_at_create :
    (d : Drive) (boot : BootNode) (node : IndexNode) (p index : ℕ)
    → wanted_slice d node.hash_path false (read_directory d p) ≡ some index
    → update_at d boot node false p ≡ some (create_in d boot node p (read_directory d p) index)
unfolding update_at
update_at_create d boot node p index e = rw (update_at, e) refl

pub update_at_delete :
    (d : Drive) (boot : BootNode) (node : IndexNode) (p index : ℕ)
    → wanted_slice d node.hash_path true (read_directory d p) ≡ some index
    → update_at d boot node true p ≡ some (delete_in d boot node p (read_directory d p) index)
unfolding update_at
update_at_delete d boot node p index e = rw (update_at, e) refl

wanted_create :
    (d : Drive) (hash_file index : ℕ) (dir : Directory)
    → wanted_slice d hash_file false dir ≡ some index
    → index < length dir.in_slices
unfolding wanted_slice
wanted_create d hash_file index dir e = (free_slice_holds dir.in_slices index e).1

wanted_delete :
    (d : Drive) (hash_file index : ℕ) (dir : Directory)
    → wanted_slice d hash_file true dir ≡ some index
    → (get_or dir.in_slices index 0 ≢ 0) × (index < length dir.in_slices)
unfolding wanted_slice is_slice_of
wanted_delete d hash_file index dir e =
    let held = first_index_holds (is_slice_of d hash_file) dir.in_slices index e in
    (λ z. ground (arith, held.0, z), held.1)

-- The update of a row of the region.
pub update_at-Exclusive :
    (d : Drive) (boot : BootNode) (node : IndexNode) (remove : Bool) (k index : ℕ) (u : Updated)
    → Exclusive d boot
    → InRegion boot k
    → boot.start_in ≤ boot.end_in
    → wanted_slice d node.hash_path remove (read_directory d (row_at boot k)) ≡ some index
    → update_at d boot node remove (row_at boot k) ≡ some u
    → Exclusive u.drive u.boot
unfolding create_in delete_in
update_at-Exclusive d boot node true k index u x inside room wanted e =
    let (there, held) =
      wanted_delete d node.hash_path index (read_directory d (row_at boot k)) wanted in
    let same : delete_in d boot node (row_at boot k) (read_directory d (row_at boot k)) index ≡ u =
      cc (update_at_delete d boot node (row_at boot k) index wanted, e) in
    subst (λ v. Exclusive v.drive v.boot) same
      (delete_in-Exclusive d boot node k index x inside held there)
update_at-Exclusive d boot node false k index u x inside room wanted e =
    let same : create_in d boot node (row_at boot k) (read_directory d (row_at boot k)) index ≡ u =
      cc (update_at_create d boot node (row_at boot k) index wanted, e) in
    subst (λ v. Exclusive v.drive v.boot) same
      (create_in-Exclusive d boot node k index x inside
        (wanted_create d node.hash_path index (read_directory d (row_at boot k)) wanted) room)
