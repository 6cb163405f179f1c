-- ===== src/Hefs/Firsts.antt =====
-- The first directory of a file system, and what the balancing writes after it.
use krnl.Base.{
  ℕ, suc, ◌≤◌, ◌≡◌, ◌≢◌, refl, sym, ap, ◌∙◌, subst, Bool, true, false, List, some, arith, ltb, ◌==◌,
}
use krnl.Hefs.Words.{hash_64}
use krnl.Hefs.Nodes.{BootNode, Directory}
use krnl.Hefs.Sectors.{seal_directory, seal_boot}
use krnl.Hefs.Drive.{Drive, sector_of, read_directory}
use krnl.Hefs.Scan.{here, at}
use krnl.Hefs.Directories.{
  Updated, is_vacant, is_wanted, judge_child, find_child, new_dirent, adopt, count_ind, store_ind,
  update_ind_status,
}
use krnl.Hefs.Tree.{red, balance_one}
use krnl.Hefs.Walks.{scan_here}
use krnl.Hefs.Children.{balance_one_child}
use krnl.Hefs.Places.{store_ind_read, store_ind_read_only, update_first, replace_first}

judge_child_unused :
    (d : Drive) (tmpdir : Directory) (child : ℕ)
    → tmpdir.hash_path ≡ 0
    → judge_child d tmpdir child ≡ here
unfolding judge_child
judge_child_unused d tmpdir child unused = ground (arith, unused)

-- An unused place, with no links: its new directory has its child at 512.
find_child_unused :
    (steps : ℕ) (d : Drive) (boot : BootNode) (tmpdir : Directory)
    → tmpdir.hash_path ≡ 0
    → find_child (suc steps) d boot tmpdir 0 ≡ at 512
unfolding find_child
find_child_unused steps d boot tmpdir unused =
    scan_here (judge_child d tmpdir) (ltb boot.end_ind) steps 512
      (judge_child_unused d tmpdir 512 unused)

adopt_unused :
    (boot : BootNode) (tmpdir dirent : Directory)
    → tmpdir.child ≡ 0
    → 512 ≤ boot.end_ind
    → adopt boot tmpdir dirent (at 512) ≡ some (record dirent { color = red; child = 512 })
unfolding adopt
adopt_unused boot tmpdir dirent leaf low =
    let first : (tmpdir.child == 0) ≡ true = ground (arith, leaf) in
    let second : ltb boot.end_ind 512 ≡ false = ground (arith, low) in
    rw (adopt, first, second) refl

-- A drive that can be written, whose directory region starts with an unused place, behind the boot node.
pub record Unused (d : Drive) (boot : BootNode) : Type 0 where
  pub writable : d.packet_read_only ≡ false
  pub there : boot.start_ind ≢ 0
  pub boot_apart : sector_of boot.start_ind ≢ sector_of d.lba_start
  pub behind : 1024 ≤ boot.start_ind
  pub region : boot.start_ind ≤ boot.end_ind
  pub no_path : (read_directory d boot.start_ind).hash_path ≡ 0
  pub no_next : (read_directory d boot.start_ind).next ≡ 0
  pub no_prev : (read_directory d boot.start_ind).prev ≡ 0
  pub no_child : (read_directory d boot.start_ind).child ≡ 0

pub FirstDirectory : ℕ → Drive → BootNode → List ℕ → ℕ → Type 0
FirstDirectory steps d boot dir_name flags =
    (u : Updated) × (update_ind_status steps d boot dir_name flags false ≡ some u)
    × (u.ok ≡ true)
    × ((read_directory u.drive boot.start_ind).hash_path ≡ hash_64 dir_name)
    × ((read_directory u.drive boot.start_ind).child ≡ 512)
    × ((read_directory (balance_one u.boot u.drive boot.start_ind) 512).parent ≡ boot.start_ind)

unused_wanted :
    (dir_name : List ℕ) (tmpdir : Directory)
    → tmpdir.hash_path ≡ 0
    → is_wanted dir_name false tmpdir ≡ true
unfolding is_wanted is_vacant
unused_wanted dir_name tmpdir unused = ground (arith, unused)

store_ind_start :
    (d : Drive) (boot : BootNode) (remove : Bool) (start : ℕ) (dirent : Directory)
    → (store_ind d boot remove start dirent).boot.start_ind ≡ boot.start_ind
unfolding store_ind count_ind seal_boot
store_ind_start d boot remove start dirent = refl

abbrev first_dirent : Drive → BootNode → List ℕ → ℕ → Directory
first_dirent d boot dir_name flags =
    record (new_dirent boot dir_name flags false (read_directory d boot.start_ind)) {
      color = red;
      child = 512;
    }

first_dirent_fields :
    (d : Drive) (boot : BootNode) (dir_name : List ℕ) (flags : ℕ)
    → (read_directory d boot.start_ind).prev ≡ 0
    → ((seal_directory (first_dirent d boot dir_name flags)).hash_path ≡ hash_64 dir_name)
      × ((seal_directory (first_dirent d boot dir_name flags)).child ≡ 512)
      × ((seal_directory (first_dirent d boot dir_name flags)).prev ≡ boot.start_ind)
unfolding new_dirent seal_directory
first_dirent_fields d boot dir_name flags no_prev = (refl, refl, ground (arith, no_prev))

one_place : (c : ℕ) → c ≡ 512 → c ≢ 0
one_place c at_512 e = omega (arith, at_512, e)

far_place : (boot : BootNode) → 1024 ≤ boot.start_ind → sector_of 512 ≢ sector_of boot.start_ind
far_place boot behind e = omega (arith, behind, e)

create_first :
    (steps : ℕ) (d : Drive) (boot : BootNode) (dir_name : List ℕ) (flags : ℕ)
    → Unused d boot
    → update_ind_status (suc steps) d boot dir_name flags false
      ≡ some (store_ind d boot false boot.start_ind (first_dirent d boot dir_name flags))
create_first steps d boot dir_name flags x =
    let tmpdir = read_directory d boot.start_ind in
    update_first steps d boot dir_name flags false x.there (unused_wanted dir_name tmpdir x.no_path)
    ∙ replace_first (suc steps) d boot dir_name flags false (first_dirent d boot dir_name flags)
        x.there
        (ap (adopt boot tmpdir (new_dirent boot dir_name flags false tmpdir)) (
            ap (find_child (suc steps) d boot tmpdir) x.no_next
            ∙ find_child_unused steps d boot tmpdir x.no_path)
          ∙ adopt_unused boot tmpdir (new_dirent boot dir_name flags false tmpdir) x.no_child
              (omega (arith, x.behind, x.region)))

-- Creating the first directory, whose path has a hash other than 0, puts it in the first place with its
-- hash, and gives it 512 as its child: a position outside the region. The next pass of the balancing over it
-- then writes the sector at byte 512 of the disk.
pub update_ind_status-FirstDirectory :
    (steps : ℕ) (d : Drive) (boot : BootNode) (dir_name : List ℕ) (flags : ℕ)
    → Unused d boot
    → hash_64 dir_name ≢ 0
    → FirstDirectory (suc steps) d boot dir_name flags
unfolding FirstDirectory store_ind seal_boot count_ind
update_ind_status-FirstDirectory steps d boot dir_name flags x named =
    let dirent = first_dirent d boot dir_name flags in
    let u = store_ind d boot false boot.start_ind dirent in
    let read : read_directory u.drive boot.start_ind ≡ seal_directory dirent =
      store_ind_read d boot false boot.start_ind dirent x.writable x.there x.boot_apart in
    let (same_hash, same_child, same_prev) = first_dirent_fields d boot dir_name flags x.no_prev in
    let hash : (read_directory u.drive boot.start_ind).hash_path ≡ hash_64 dir_name =
      ap (λ e. e.hash_path) read ∙ same_hash in
    let child : (read_directory u.drive boot.start_ind).child ≡ 512 =
      ap (λ e. e.child) read ∙ same_child in
    (
      u,
      create_first steps d boot dir_name flags x,
      refl,
      hash,
      child,
      subst
          (λ c.
            (read_directory (balance_one u.boot u.drive boot.start_ind) c).parent ≡ boot.start_ind)
          child
          (balance_one_child u.boot u.drive
            (store_ind_read_only d boot false boot.start_ind dirent ∙ x.writable) x.there
            (λ e. named (sym hash ∙ e)) (ap (λ e. e.prev) read ∙ same_prev)
            (one_place (read_directory u.drive boot.start_ind).child child)
            (λ e. far_place boot x.behind (ap sector_of (sym child) ∙ e))),
    )
