-- ===== src/Hefs/Places.antt =====
-- The first place of the directory region: what creating a directory there, and removing it, do.
use krnl.Base.{ℕ, suc, ◌≡◌, ◌≢◌, refl, ap, ◌∙◌, Bool, true, false, List, some, arith, ◌==◌}
use krnl.Hefs.Nodes.{BootNode, Directory}
use krnl.Hefs.Sectors.{as_directory, directory_sector, boot_sector, seal_directory, seal_boot}
use krnl.Hefs.Drive.{Drive, sector_of, drv_input, read_directory, write_directory}
use krnl.Hefs.Scan.{here}
use krnl.Hefs.Directories.{
  is_wanted, judge_ind, past_update, find_child, new_dirent, adopt, count_ind, store_ind,
  replace_ind, update_ind_status,
}
use krnl.Hefs.Walks.{scan_here}
use krnl.Hefs.Transfers.{sectors-drv_output_other, drv_output_lba_start, drv_output_read_only}
use krnl.Hefs.Children.{read-write_self}

-- What is stored at a place apart from the boot node is read from it.
pub store_ind_read :
    (d : Drive) (boot : BootNode) (remove : Bool) (start : ℕ) (dirent : Directory)
    → d.packet_read_only ≡ false
    → start ≢ 0
    → sector_of start ≢ sector_of d.lba_start
    → read_directory (store_ind d boot remove start dirent).drive start ≡ seal_directory dirent
unfolding store_ind read_directory
store_ind_read d boot remove start dirent writable there apart =
    let stored = write_directory (drv_input d) start (seal_directory dirent) in
    let lba : stored.lba_start ≡ d.lba_start =
      drv_output_lba_start (drv_input d) start (directory_sector (seal_directory dirent)) in
    ap as_directory (
      sectors-drv_output_other (record stored { error = 0 }) stored.lba_start start
        (boot_sector (seal_boot (count_ind boot remove))) (λ e. apart (e ∙ ap sector_of lba)))
    ∙ read-write_self (drv_input d) start (seal_directory dirent) writable there

judge_first :
    (d : Drive) (boot : BootNode) (dir_name : List ℕ) (remove : Bool)
    → boot.start_ind ≢ 0
    → is_wanted dir_name remove (read_directory d boot.start_ind) ≡ true
    → judge_ind d dir_name remove boot.start_ind ≡ here
unfolding judge_ind
judge_first d boot dir_name remove there wanted =
    let lba : (boot.start_ind == 0) ≡ false = ground (arith, there) in
    rw (judge_ind, lba, wanted) refl

-- The update of the first place.
pub update_first :
    (steps : ℕ) (d : Drive) (boot : BootNode) (dir_name : List ℕ) (flags : ℕ) (remove : Bool)
    → boot.start_ind ≢ 0
    → is_wanted dir_name remove (read_directory d boot.start_ind) ≡ true
    → update_ind_status (suc steps) d boot dir_name flags remove
      ≡ replace_ind (suc steps) d boot dir_name flags remove boot.start_ind
unfolding update_ind_status
update_first steps d boot dir_name flags remove there wanted =
    rw
      (
        update_ind_status,
        scan_here (judge_ind d dir_name remove) (past_update boot) steps boot.start_ind
            (judge_first d boot dir_name remove there wanted),
      )
      refl

pub replace_first :
    (steps : ℕ) (d : Drive) (boot : BootNode) (dir_name : List ℕ) (flags : ℕ) (remove : Bool)
    (adopted : Directory)
    → boot.start_ind ≢ 0
    → adopt boot
        (read_directory d boot.start_ind)
        (new_dirent boot dir_name flags remove (read_directory d boot.start_ind))
        (find_child steps d boot
          (read_directory d boot.start_ind)
          (read_directory d boot.start_ind).next)
      ≡ some adopted
    → replace_ind steps d boot dir_name flags remove boot.start_ind
      ≡ some (store_ind d boot remove boot.start_ind adopted)
unfolding replace_ind new_dirent
replace_first steps d boot dir_name flags remove adopted there e =
    let lba : (boot.start_ind == 0) ≡ false = ground (arith, there) in rw (replace_ind, lba, e) refl

pub store_ind_read_only :
    (d : Drive) (boot : BootNode) (remove : Bool) (start : ℕ) (dirent : Directory)
    → (store_ind d boot remove start dirent).drive.packet_read_only ≡ d.packet_read_only
unfolding store_ind
store_ind_read_only d boot remove start dirent =
    let stored = write_directory (drv_input d) start (seal_directory dirent) in
    drv_output_read_only (record stored { error = 0 }) stored.lba_start
      (boot_sector (seal_boot (count_ind boot remove)))
    ∙ drv_output_read_only (drv_input d) start (directory_sector (seal_directory dirent))
