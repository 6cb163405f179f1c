-- ===== src/Hefs/Removal.antt =====
-- What removing the first directory does to the search for files.
use krnl.Base.{
  ℕ, suc, ◌≡◌, ◌≢◌, refl, ap, ◌∙◌, true, false, ◌||◌, List, none, some, arith, ltb, ◌==◌,
  Bool-cases, inl, inr,
}
use krnl.Hefs.Nodes.{BootNode, Directory}
use krnl.Hefs.Sectors.{seal_directory, seal_boot}
use krnl.Hefs.Drive.{Drive, sector_of, read_directory}
use krnl.Hefs.Scan.{give_up, Found, nowhere, scan}
use krnl.Hefs.Directories.{
  Updated, is_live, is_wanted, find_child, new_dirent, adopt, count_ind, store_ind,
  update_ind_status,
}
use krnl.Hefs.Files.{Fetched, judge_fetch, past_fetch, fetch_in}
use krnl.Hefs.Walks.{scan_give_up}
use krnl.Hefs.Places.{store_ind_read, update_first, replace_first}

-- A directory with a child is replaced by one with the same child.
adopt_child :
    (boot : BootNode) (tmpdir dirent : Directory) (found : Found)
    → tmpdir.child ≢ 0
    → adopt boot tmpdir dirent found ≡ some dirent
unfolding adopt
adopt_child boot tmpdir dirent found there = ground (arith, there)

judge_gone :
    (d : Drive) (dir_name file_name : List ℕ) (kind start : ℕ)
    → (read_directory d start).hash_path ≡ 0
    → judge_fetch d dir_name file_name kind start ≡ give_up
unfolding judge_fetch
judge_gone d dir_name file_name kind start gone = ground (arith, gone)

fetch_bad :
    (steps : ℕ) (d : Drive) (boot : BootNode) (dir_name file_name : List ℕ) (kind : ℕ)
    → (ltb boot.end_ind boot.start_ind || ltb boot.end_in boot.start_in) ≡ true
    → fetch_in steps d boot dir_name file_name kind ≡ some (record { node = none; drive = d })
unfolding fetch_in
fetch_bad steps d boot dir_name file_name kind bad = rw (fetch_in, bad) refl

fetch_corrupted :
    (steps : ℕ) (d : Drive) (boot : BootNode) (dir_name file_name : List ℕ) (kind : ℕ)
    → (ltb boot.end_ind boot.start_ind || ltb boot.end_in boot.start_in) ≡ false
    → (d.error == 54) ≡ true
    → fetch_in steps d boot dir_name file_name kind ≡ some (record { node = none; drive = d })
unfolding fetch_in
fetch_corrupted steps d boot dir_name file_name kind good corrupted =
    rw (fetch_in, good, corrupted) refl

fetch_nowhere :
    (steps : ℕ) (d : Drive) (boot : BootNode) (dir_name file_name : List ℕ) (kind : ℕ)
    → (ltb boot.end_ind boot.start_ind || ltb boot.end_in boot.start_in) ≡ false
    → (d.error == 54) ≡ false
    → scan (judge_fetch d dir_name file_name kind) (past_fetch boot) steps boot.start_ind ≡ nowhere
    → fetch_in steps d boot dir_name file_name kind
      ≡ some (record { node = none; drive = record d { error = 35 } })
unfolding fetch_in
fetch_nowhere steps d boot dir_name file_name kind good sound missing =
    rw (fetch_in, good, sound, missing) refl

-- A search gives up at a first directory without a path.
pub fetch_without_first :
    (steps : ℕ) (d : Drive) (boot : BootNode) (dir_name file_name : List ℕ) (kind : ℕ)
    → (read_directory d boot.start_ind).hash_path ≡ 0
    → (f : Fetched) × (fetch_in (suc steps) d boot dir_name file_name kind ≡ some f)
      × (f.node ≡ none)
fetch_without_first steps d boot dir_name file_name kind gone =
    elim (Bool-cases (ltb boot.end_ind boot.start_ind || ltb boot.end_in boot.start_in)) [
      | inl bad ↦ (
        record { node = none; drive = d },
        fetch_bad (suc steps) d boot dir_name file_name kind bad,
        refl,
      )
      | inr good ↦ elim (Bool-cases (d.error == 54)) [
        | inl corrupted ↦ (
          record { node = none; drive = d },
          fetch_corrupted (suc steps) d boot dir_name file_name kind good corrupted,
          refl,
        )
        | inr sound ↦ (
          record { node = none; drive = record d { error = 35 } },
          fetch_nowhere (suc steps) d boot dir_name file_name kind good sound (
              scan_give_up (judge_fetch d dir_name file_name kind) (past_fetch boot) steps
                boot.start_ind (judge_gone d dir_name file_name kind boot.start_ind gone)),
          refl,
        )
      ]
    ]

removed_hash :
    (boot : BootNode) (dir_name : List ℕ) (flags : ℕ) (tmpdir : Directory)
    → (new_dirent boot dir_name flags true tmpdir).hash_path ≡ 0
unfolding new_dirent
removed_hash boot dir_name flags tmpdir = refl

sealed_hash : (dir : Directory) → (seal_directory dir).hash_path ≡ dir.hash_path
unfolding seal_directory
sealed_hash dir = refl

stored_start :
    (d : Drive) (boot : BootNode) (start : ℕ) (dirent : Directory)
    → (store_ind d boot true start dirent).boot.start_ind ≡ boot.start_ind
unfolding store_ind count_ind seal_boot
stored_start d boot start dirent = refl

-- After the first directory of a region, which has a child, is removed, from a drive that can be written
-- and a place apart from the boot node, a search finds no file, whatever other directory it is asked
-- about and whatever that holds.
pub update_ind_status-fetch_in :
    (steps more : ℕ) (d : Drive) (boot : BootNode) (dir_name other_dir file_name : List ℕ)
    (flags kind : ℕ)
    → d.packet_read_only ≡ false
    → boot.start_ind ≢ 0
    → sector_of boot.start_ind ≢ sector_of d.lba_start
    → is_live dir_name (read_directory d boot.start_ind) ≡ true
    → (read_directory d boot.start_ind).child ≢ 0
    → (u : Updated) × (update_ind_status (suc steps) d boot dir_name flags true ≡ some u)
      × (f : Fetched) × (fetch_in (suc more) u.drive u.boot other_dir file_name kind ≡ some f)
      × (f.node ≡ none)
unfolding is_wanted
update_ind_status-fetch_in steps more d boot dir_name other_dir file_name flags kind writable there
      apart live child =
    let tmpdir = read_directory d boot.start_ind in
    let dirent = new_dirent boot dir_name flags true tmpdir in
    let u = store_ind d boot true boot.start_ind dirent in
    let (f, fetched, missing) = fetch_without_first more u.drive u.boot other_dir file_name kind (
      ap (λ p. (read_directory u.drive p).hash_path) (stored_start d boot boot.start_ind dirent)
      ∙ ap (λ r. r.hash_path)
          (store_ind_read d boot true boot.start_ind dirent writable there apart)
      ∙ sealed_hash dirent
      ∙ removed_hash boot dir_name flags tmpdir) in
    (
      u,
      update_first steps d boot dir_name flags true there live
          ∙ replace_first (suc steps) d boot dir_name flags true dirent there (
              adopt_child boot tmpdir dirent (find_child (suc steps) d boot tmpdir tmpdir.next)
                child),
      f,
      fetched,
      missing,
    )
