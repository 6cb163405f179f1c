-- ===== src/Hefs/Drive.antt =====
-- The main drive of private/minkernel/src/DriveMgr.cpp, in its AHCI build: `io_drv_input` and
-- `io_drv_output`. A position is in bytes, and a transfer starts at the sector that holds it. The
-- transfer itself, `drv_std_read` and `drv_std_write`, succeeds: a faulty disk is not modelled. A
-- structure of the file system is one sector; the blocks of a file are as many as their size gives.
use krnl.Kpc.{kpc_success, kpc_disk}
use krnl.Base.{
  zero, suc, ◌+◌, ◌*◌, ◌%◌, ◌^◌, List, [], ◌++◌, take, drop, ℕ, ◌/◌, Bool, false, ◌||◌, ◌==◌,
  if◌then◌else◌,
}
use krnl.Hefs.Nodes.{BootNode, IndexNode, Directory}
use krnl.Hefs.Sectors.{
  Sector, data_sector, sector_bytes, node_sector, directory_sector, boot_sector, as_boot, as_node,
  as_directory,
}

-- The drive, the sectors of its disk, and `err_global_get()`.
pub record Drive : Type 0 where
  pub sectors : ℕ → Sector
  pub good : Bool
  pub packet_read_only : Bool
  pub lba_start : ℕ
  pub lba_end : ℕ
  pub sector_sz : ℕ
  pub kind : ℕ
  pub sector_count : ℕ
  pub error : ℕ

abbrev pub sector_of : ℕ → ℕ
sector_of lba = lba / 512

-- What a read leaves of the drive: the transfer clears the error.
abbrev pub drv_input : Drive → Drive
drv_input d = record d { error = kpc_success }

unfoldable pub read_boot : Drive → ℕ → BootNode
read_boot d lba = as_boot (d.sectors (sector_of lba))

unfoldable pub read_node : Drive → ℕ → IndexNode
read_node d lba = as_node (d.sectors (sector_of lba))

unfoldable pub read_directory : Drive → ℕ → Directory
read_directory d lba = as_directory (d.sectors (sector_of lba))

abbrev pub put_sector : (ℕ → Sector) → ℕ → Sector → (ℕ → Sector)
put_sector sectors at s i = if i == at then s else sectors i

unfoldable pub drv_output : Drive → ℕ → Sector → Drive
drv_output d lba s =
    if d.packet_read_only || lba == 0
    then record d { good = false }
    else record d { sectors = put_sector d.sectors (sector_of lba) s; error = kpc_success }

-- A run of sectors written from a buffer, and read: `n` sectors from sector `at` on.
unfoldable pub write_sectors : (ℕ → Sector) → ℕ → ℕ → List ℕ → (ℕ → Sector)
write_sectors sectors at zero bytes = sectors
write_sectors sectors at (suc n) bytes =
    write_sectors (put_sector sectors at (data_sector (take 512 bytes))) (at + 1) n (drop 512 bytes)

unfoldable pub read_sectors : (ℕ → Sector) → ℕ → ℕ → List ℕ
read_sectors sectors at zero = []
read_sectors sectors at (suc n) = sector_bytes (sectors at) ++ read_sectors sectors (at + 1) n

-- The number of sectors of a transfer, which the command holds in 16 bits.
unfoldable pub sectors_of_size : ℕ → ℕ
sectors_of_size size = size / 512 % 2 ^ 16

-- `io_drv_output` and `io_drv_input` of a buffer of a size.
unfoldable pub output_bytes : Drive → ℕ → ℕ → List ℕ → Drive
output_bytes d lba size bytes =
    if d.packet_read_only || lba == 0
    then record d { good = false }
    else if size == 0
    then record d { good = false; error = kpc_disk }
    else record d {
      sectors = write_sectors d.sectors (sector_of lba) (sectors_of_size size) bytes;
      error = kpc_success;
    }

unfoldable pub input_bytes : Drive → ℕ → ℕ → List ℕ → List ℕ × Drive
input_bytes d lba size bytes =
    let n = sectors_of_size size in
    if size == 0
    then (bytes, record d { good = false; error = kpc_disk })
    else (read_sectors d.sectors (sector_of lba) n ++ drop (512 * n) bytes, drv_input d)

abbrev pub write_boot : Drive → ℕ → BootNode → Drive
write_boot d lba b = drv_output d lba (boot_sector b)

abbrev pub write_node : Drive → ℕ → IndexNode → Drive
write_node d lba n = drv_output d lba (node_sector n)

abbrev pub write_directory : Drive → ℕ → Directory → Drive
write_directory d lba dir = drv_output d lba (directory_sector dir)

-- What an operation answers, with the drive it leaves.
pub record Answer : Type 0 where
  pub ok : Bool
  pub drive : Drive

abbrev pub answer : Bool → Drive → Answer
answer ok d = record { ok = ok; drive = d }
