-- ===== src/Tests/Files.antt =====
-- The file system on small disks.
use krnl.Base.{
  Bool-cases, ◌⊎◌, inl, inr, ◌+◌, ◌*◌, ◌≤◌, ◌<◌, ◌∙◌, sym, ◌==◌, if◌then◌else◌, ℕ, zero, suc, ◌%◌,
  ◌/◌, ◌<◌, ◌≡◌, ◌≢◌, ◌⊎◌, refl, true, false, List, [], ◌∷◌, none, some, arith, get_or, replicate,
  ◌==◌, if◌then◌else◌,
}
use krnl.Hefs.Words.{hash_64, hash_loop, to_big_endian_64}
use krnl.Hefs.Nodes.{BootNode, IndexNode, Directory, zero_node, zero_directory}
use krnl.Hefs.Sectors.{directory_sector, as_directory}
use krnl.Hefs.Drive.{Drive, sector_of, read_directory}
use krnl.Hefs.Scan.{here, scan, first_index}
use krnl.Hefs.Directories.{Updated, is_live, update_ind_status}
use krnl.Hefs.Files.{
  Fetched, fetch_in, judge_update, past_update_in, update_in_status, update_at, wanted_slice,
  is_free_slice, create_in,
}
use krnl.Hefs.Format.{new_boot, drive_size}
use krnl.Hefs.Walks.{stop}
use krnl.Hefs.Create.{Room}
use krnl.Hefs.Lookup.{CreateThenFetch, update_in_status-fetch_in}
use krnl.Hefs.Exclusive.{Exclusive}
use krnl.Hefs.Invariant.{update_in_status-Exclusive, update_in_status_ends}
use krnl.Hefs.Firsts.{Unused, FirstDirectory, update_ind_status-FirstDirectory}
use krnl.Hefs.Removal.{update_ind_status-fetch_in}
use krnl.Hefs.Regions.{Ordered, last_row, new_boot-Ordered}

abbrev slash : List ℕ
slash = 47 ∷ []

abbrev notes : List ℕ
notes = 110 ∷ []

abbrev small_boot : BootNode
small_boot = record {
  magic = [];
  vol_name = [];
  version = 0x0104;
  bad_sectors = 0;
  sector_count = 2048;
  sector_size = 512;
  checksum = 0;
  disk_kind = 0xcc;
  encoding = 0;
  start_ind = 1537;
  end_ind = 2561;
  ind_count = 1;
  disk_size = 1048576;
  disk_status = 0x18;
  disk_flags = 0;
  vid = 0xffff;
  start_in = 3072;
  end_in = 8192;
  start_block = 8192;
  end_block = 1048576;
  journal_lba = 0;
  pad = [];
}

abbrev root_directory : Directory
root_directory = record zero_directory { hash_path = 7; created = 1; child = 512 }

-- A disk of equal directories.
abbrev disk_of : Directory → Drive
disk_of dir = record {
  sectors = λ i. directory_sector dir;
  good = true;
  packet_read_only = false;
  lba_start = 1024;
  lba_end = 1048575;
  sector_sz = 512;
  kind = 0xda;
  sector_count = 2048;
  error = 0;
}

abbrev slash_directory : Directory
slash_directory = record zero_directory { hash_path = hash_64 slash; created = 1; child = 512 }

abbrev file_node : IndexNode
file_node = record zero_node { hash_path = hash_64 notes; created = 1 }

slash_named : hash_64 slash ≢ 0
unfolding hash_64 hash_loop to_big_endian_64
slash_named e = omega (arith, e)

disk_Room : Room (disk_of slash_directory) small_boot 1537
disk_Room = record {
  writable = refl;
  boot_there = λ e. omega (arith, e);
  boot_apart = omega arith;
  region = omega arith;
  region_small = omega arith;
  node_apart = omega arith;
  node_room = omega arith;
  node_small = omega arith;
  block_room = omega arith;
}

slash_judged : judge_update (disk_of slash_directory) slash file_node.hash_path false 1537 ≡ here
unfolding judge_update wanted_slice is_free_slice first_index read_directory as_directory
slash_judged = ground arith

lookup_example : CreateThenFetch 1 (disk_of slash_directory) small_boot slash notes file_node
lookup_example =
    update_in_status-fetch_in 1 (disk_of slash_directory) small_boot slash notes file_node 0 1537
      disk_Room slash_named refl (stop slash_judged) (omega arith)
      (λ i h. absurd (omega (arith, h))) (λ h. absurd (omega (arith, h)))

abbrev zeros : ℕ → List ℕ
zeros n = replicate n 0

get_or-zeros : (n i : ℕ) → get_or (zeros n) i 0 ≡ 0
get_or-zeros zero i = refl
get_or-zeros (suc n) zero = refl
get_or-zeros (suc n) (suc i) = get_or-zeros n i

-- The regions as Format lays them out: the first index node starts in the sector of the last row.
abbrev formatted_boot : BootNode
formatted_boot = record small_boot { start_in = 2561 }

-- A disk with the directory "/" in its first row.
abbrev formatted_disk : Drive
formatted_disk = record (disk_of zero_directory) {
  sectors =
      λ i. if i == 3 then directory_sector slash_directory else directory_sector zero_directory;
}

formatted_slices : (p i : ℕ) → get_or (read_directory formatted_disk p).in_slices i 0 ≡ 0
unfolding read_directory as_directory
formatted_slices p i = elim (Bool-cases (sector_of p == 3)) [
  | inl first ↦ rw first (get_or-zeros 16 i)
  | inr other ↦ rw other (get_or-zeros 16 i)
]

disk_Exclusive : Exclusive formatted_disk formatted_boot
disk_Exclusive = record {
  writable = refl;
  boot_there = λ e. omega (arith, e);
  boot_apart = omega arith;
  region_small = omega arith;
  nodes_apart = omega arith;
  nodes_small = omega arith;
  owned = record {
    behind = λ k i inside there. absurd (there (formatted_slices (1537 + 512 * k) i));
    below = λ k i inside there. absurd (there (formatted_slices (1537 + 512 * k) i));
    single =
        λ k i k' i' inside inside' there same. absurd (there (formatted_slices (1537 + 512 * k) i));
  };
}

last_row_free :
    (k : ℕ)
    → 1537 + 512 * k ≤ 2561
    → 2561 < 1537 + 512 * k + 512
    → (read_directory formatted_disk (1537 + 512 * k)).hash_path ≢ hash_64 slash
unfolding read_directory as_directory
last_row_free k low high e =
    let place : (sector_of (1537 + 512 * k) == 3) ≡ false = ground (arith, low, high) in
    let free : (read_directory formatted_disk (1537 + 512 * k)).hash_path ≡ 0 = rw place refl in
    slash_named (sym e ∙ free)

abbrev slash_updated : Updated
slash_updated = create_in formatted_disk formatted_boot file_node 1537 slash_directory 0

slash_updates :
    update_in_status 1 formatted_disk formatted_boot slash file_node false ≡ some slash_updated
unfolding update_in_status update_at wanted_slice is_free_slice first_index read_directory
    as_directory scan past_update_in judge_update
slash_updates = ground arith

kept_apart_example : Exclusive slash_updated.drive slash_updated.boot
kept_apart_example =
    update_in_status-Exclusive 1 formatted_disk formatted_boot slash file_node false slash_updated
      disk_Exclusive last_row_free slash_updates

ends_example : update_in_status 3 (disk_of slash_directory) small_boot notes file_node true ≢ none
ends_example =
    update_in_status_ends 3 (disk_of slash_directory) small_boot notes file_node true (omega arith)
      (omega arith)

disk_Unused : Unused (disk_of zero_directory) small_boot
unfolding read_directory as_directory
disk_Unused = record {
  writable = refl;
  there = λ e. omega (arith, e);
  boot_apart = λ e. omega (arith, e);
  behind = omega arith;
  region = omega arith;
  no_path = refl;
  no_next = refl;
  no_prev = refl;
  no_child = refl;
}

first_example : FirstDirectory 1 (disk_of zero_directory) small_boot slash 0x50
first_example =
    update_ind_status-FirstDirectory 0 (disk_of zero_directory) small_boot slash 0x50 disk_Unused
      slash_named

slash_live : is_live slash (read_directory (disk_of slash_directory) 1537) ≡ true
unfolding is_live read_directory as_directory
slash_live = ground arith

slash_child : (read_directory (disk_of slash_directory) 1537).child ≢ 0
unfolding read_directory as_directory
slash_child e = omega (arith, e)

removal_example :
    (u : Updated) × (update_ind_status 1 (disk_of slash_directory) small_boot slash 0x50 true
      ≡ some u)
    × (f : Fetched) × (fetch_in 5 u.drive u.boot notes notes 0 ≡ some f)
    × (f.node ≡ none)
removal_example =
    update_ind_status-fetch_in 0 4 (disk_of slash_directory) small_boot slash notes notes 0x50 0
      refl (λ e. omega (arith, e)) (λ e. omega (arith, e)) slash_live slash_child

regions_example :
    Ordered (new_boot (disk_of zero_directory) 0x50 notes small_boot)
    × ((disk_of zero_directory).lba_start
        < (new_boot (disk_of zero_directory) 0x50 notes small_boot).start_ind)
    × ((drive_size (disk_of zero_directory) / (disk_of zero_directory).sector_sz / 300 % 512 ≡ 511)
        ⊎ (sector_of (last_row (new_boot (disk_of zero_directory) 0x50 notes small_boot))
            ≡ sector_of (new_boot (disk_of zero_directory) 0x50 notes small_boot).start_in))
regions_example =
    new_boot-Ordered (disk_of zero_directory) 0x50 notes small_boot (omega arith)
      (λ e. omega (arith, e)) (omega arith)

abbrev placed_node : IndexNode
placed_node = record file_node { hash_path = 9; offset_slice_low = 8192 }

abbrev two_sectors : List ℕ
two_sectors = replicate 1024 7

abbrev buffer : List ℕ
buffer = replicate 1024 0
