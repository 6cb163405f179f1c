-- ===== src/Hefs/Sectors.antt =====
-- The sectors of a disk of OpenHeFS. A sector holds one structure, or a block of file data; read as
-- another structure, its bytes are taken apart by the other's layout.
use krnl.Base.{ℕ, ◌-◌, List, get_or}
use krnl.Crc.{calculate_crc32}
use krnl.Hefs.Nodes.{BootNode, IndexNode, Directory}
use krnl.Hefs.Layout.{
  boot_node_bytes, index_node_bytes, directory_bytes, boot_node_of, index_node_of, directory_of,
}

pub data Sector : Type 0 where
  boot_sector : BootNode → Sector
  node_sector : IndexNode → Sector
  directory_sector : Directory → Sector
  data_sector : List ℕ → Sector

unfoldable pub sector_bytes : Sector → List ℕ
sector_bytes (boot_sector b) = boot_node_bytes b
sector_bytes (node_sector n) = index_node_bytes n
sector_bytes (directory_sector d) = directory_bytes d
sector_bytes (data_sector bytes) = bytes

unfoldable pub as_boot : Sector → BootNode
as_boot (boot_sector b) = b
as_boot (node_sector n) = boot_node_of (sector_bytes (node_sector n))
as_boot (directory_sector d) = boot_node_of (sector_bytes (directory_sector d))
as_boot (data_sector bytes) = boot_node_of bytes

unfoldable pub as_node : Sector → IndexNode
as_node (boot_sector b) = index_node_of (sector_bytes (boot_sector b))
as_node (node_sector n) = n
as_node (directory_sector d) = index_node_of (sector_bytes (directory_sector d))
as_node (data_sector bytes) = index_node_of bytes

unfoldable pub as_directory : Sector → Directory
as_directory (boot_sector b) = directory_of (sector_bytes (boot_sector b))
as_directory (node_sector n) = directory_of (sector_bytes (node_sector n))
as_directory (directory_sector d) = d
as_directory (data_sector bytes) = directory_of bytes

-- `ke_calculate_crc32` over the bytes of a structure, which starts at an address other than 0.
unfoldable pub checksum_of : List ℕ → ℕ → ℕ
checksum_of bytes size = calculate_crc32 (λ a. get_or bytes (a - 1) 0) 1 size

unfoldable pub boot_checksum : BootNode → ℕ
boot_checksum b = checksum_of (boot_node_bytes b) 513

unfoldable pub node_checksum : IndexNode → ℕ
node_checksum n = checksum_of (index_node_bytes n) 512

unfoldable pub directory_checksum : Directory → ℕ
directory_checksum d = checksum_of (directory_bytes d) 512

-- The structures with their checksums set, as the code sets them: over the bytes with the old one.
unfoldable pub seal_boot : BootNode → BootNode
seal_boot b = record b { checksum = boot_checksum b }

unfoldable pub seal_node : IndexNode → IndexNode
seal_node n = record n { checksum = node_checksum n }

unfoldable pub seal_directory : Directory → Directory
seal_directory d = record d { checksum = directory_checksum d }
