-- ===== src/Hefs/Exclusive.antt =====
-- The index nodes of files: each belongs to one slice of one directory, and the next one to be given
-- to no slice.
use krnl.Base.{ℕ, ◌+◌, ◌*◌, ◌^◌, ◌≤◌, ◌<◌, ◌≡◌, ◌≢◌, false, get_or}
use krnl.Hefs.Nodes.{BootNode}
use krnl.Hefs.Drive.{Drive, sector_of, read_directory}
use krnl.Hefs.Owners.{Owned}

-- The position of a row of the directory region, and the slice in a cell of it.
abbrev pub row_at : BootNode → ℕ → ℕ
row_at boot k = boot.start_ind + 512 * k

abbrev pub slice_at : Drive → BootNode → ℕ → ℕ → ℕ
slice_at d boot k i = get_or (read_directory d (row_at boot k)).in_slices i 0

-- The rows before the last, which may share its sector with the first index node.
abbrev pub InRegion : BootNode → ℕ → Type 0
InRegion boot k = row_at boot k + 512 ≤ boot.end_ind

-- The invariant, for a drive that can be written and regions in order that do not wrap: the index nodes
-- start at the sector of the last row of the region or behind it.
pub record Exclusive (d : Drive) (boot : BootNode) : Type 0 where
  pub writable : d.packet_read_only ≡ false
  pub boot_there : d.lba_start ≢ 0
  pub boot_apart : d.lba_start + 512 ≤ boot.start_ind
  pub region_small : boot.end_ind + 512 < 2 ^ 64
  pub nodes_apart : sector_of boot.end_ind ≤ sector_of boot.start_in
  pub nodes_small : boot.end_in + 512 < 2 ^ 64
  pub owned : Owned (InRegion boot) (slice_at d boot) (sector_of boot.end_ind) boot.start_in
