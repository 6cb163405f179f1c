-- ===== src/Hefs/Format.antt =====
-- The formatting of a drive: `HeFileSystemParser::Format` and `fs_init_openhefs` of
-- private/minkernel/src/FS/OpenHeFS+FileSystemParser.cpp. A name of the volume is at most 127 bytes
-- long, and a drive whose sectors have no size stops the computation.
use krnl.Kpc.{kpc_success, kpc_disk_is_corrupted}
use krnl.Base.{
  ℕ, ◌+◌, ◌*◌, ◌/◌, ◌%◌, ◌^◌, Bool, true, false, not, ◌&&◌, List, [], ◌∷◌, ◌++◌, Option, none, some,
  ltb, ◌==◌, if◌then◌else◌, length, drop,
}
use krnl.Base.Bits.{bit_and}
use krnl.Hefs.Nodes.{BootNode}
use krnl.Hefs.Sectors.{seal_boot, boot_checksum}
use krnl.Hefs.Drive.{Drive, Answer, answer, drv_input, read_boot, write_boot}
use krnl.Hefs.Parser.{is_formatted, hefs_magic, hefs_version, with_error, create_inode_directory}

abbrev pub mass_storage_drive : ℕ
mass_storage_drive = 0xda

abbrev pub hefs_optical_drive : ℕ
hefs_optical_drive = 0x0c

abbrev pub hefs_mass_storage_device : ℕ
hefs_mass_storage_device = 0xcc

-- `drv_std_get_size`.
abbrev pub drive_size : Drive → ℕ
drive_size d = d.sector_count * 512

unfoldable pub disk_kind_of : ℕ → ℕ
disk_kind_of kind =
    if not (bit_and kind mass_storage_drive == 0)
    then hefs_mass_storage_device
    else if not (bit_and kind hefs_optical_drive == 0)
    then hefs_optical_drive
    else 0xff

-- The boot node that is written, before its checksum: what is not set stays as it was read. The
-- first directory is 513 bytes, the size of a boot node, after the start of the partition.
unfoldable pub new_boot : Drive → ℕ → List ℕ → BootNode → BootNode
new_boot d flags vol_name boot =
    let max_lba = drive_size d / d.sector_sz in
    let start_ind = (d.lba_start + 513) % 2 ^ 64 in
    let end_ind = (start_ind + max_lba / 300) % 2 ^ 64 in
    let end_in = (end_ind + max_lba / 400) % 2 ^ 64 in
    record boot {
      vol_name = vol_name ++ 0 ∷ drop (length vol_name + 1) boot.vol_name;
      magic = hefs_magic ++ drop 8 boot.magic;
      bad_sectors = 0;
      sector_count = d.sector_count;
      sector_size = d.sector_sz;
      start_ind = start_ind;
      end_ind = end_ind;
      start_in = end_ind;
      end_in = end_in;
      start_block = end_in;
      end_block = drive_size d;
      ind_count = 0;
      disk_size = drive_size d;
      disk_status = 0x18;
      disk_flags = flags % 2 ^ 16;
      disk_kind = disk_kind_of d.kind;
      version = hefs_version;
      vid = 0xffff;
    }

-- `kFileMap`: the root and its directories.
abbrev pub file_map : List (List ℕ)
file_map =
    (47 ∷ [])
    ∷ (47 ∷ 98 ∷ 111 ∷ 111 ∷ 116 ∷ [])
    ∷ (47 ∷ 115 ∷ 121 ∷ 115 ∷ 116 ∷ 101 ∷ 109 ∷ [])
    ∷ (47 ∷ 110 ∷ 101 ∷ 116 ∷ 119 ∷ 111 ∷ 114 ∷ 107 ∷ [])
    ∷ (47 ∷ 100 ∷ 101 ∷ 118 ∷ 105 ∷ 99 ∷ 101 ∷ 115 ∷ [])
    ∷ (47 ∷ 109 ∷ 101 ∷ 100 ∷ 105 ∷ 97 ∷ [])
    ∷ (47 ∷ 100 ∷ 101 ∷ 118 ∷ [])
    ∷ []

abbrev pub encoding_flags_utf8 : ℕ
encoding_flags_utf8 = 0x50

-- The loop over the directories, whose answers are not looked at.
unfoldable pub create_all : ℕ → Drive → List (List ℕ) → Option Drive
create_all steps d [] = some d
create_all steps d (dir ∷ dirs) = elim (create_inode_directory steps d encoding_flags_utf8 dir) [
  | none ↦ none
  | some a ↦ create_all steps a.drive dirs
]

unfoldable pub format_fresh : ℕ → Drive → ℕ → List ℕ → BootNode → Option Answer
format_fresh steps d flags vol_name boot =
    let written =
      write_boot (drv_input d) d.lba_start (seal_boot (new_boot d flags vol_name boot)) in
    if ltb d.lba_end d.lba_start
    then some (answer false (with_error d kpc_disk_is_corrupted))
    else if d.sector_sz == 0
    then none
    else if not written.good
    then some (answer false (with_error written kpc_disk_is_corrupted))
    else elim (create_all steps written file_map) [
      | none ↦ none
      | some d' ↦ some (answer true (with_error d' kpc_success))
    ]

-- A boot node whose checksum is set and is another than that of its bytes.
unfoldable pub is_corrupted : BootNode → Bool
is_corrupted boot = not (boot_checksum boot == boot.checksum) && ltb 0 boot.checksum

-- `Format`.
unfoldable pub format : ℕ → Drive → ℕ → List ℕ → Option Answer
format steps d flags vol_name =
    let boot = read_boot d d.lba_start in
    if not d.good
    then some (answer false (with_error d kpc_disk_is_corrupted))
    else if is_corrupted boot
    then some (answer false (with_error d kpc_disk_is_corrupted))
    else if is_formatted boot
    then some (answer true (with_error d kpc_success))
    else format_fresh steps d flags vol_name boot

-- `kOpenHeFSDefaultVolumeName`.
abbrev pub default_volume_name : List ℕ
default_volume_name =
    79 ∷ 112 ∷ 101 ∷ 110 ∷ 72 ∷ 101 ∷ 70 ∷ 83 ∷ 32 ∷ 86 ∷ 111 ∷ 108 ∷ 117 ∷ 109 ∷ 101 ∷ []

-- `fs_init_openhefs`, for the drive that is constructed.
unfoldable pub fs_init_openhefs : ℕ → Drive → Option Answer
fs_init_openhefs steps d =
    if d.packet_read_only
    then some (answer true d)
    else format steps d encoding_flags_utf8 default_volume_name
