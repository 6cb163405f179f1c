-- ===== src/Hefs/Words.antt =====
-- The numbers of OpenHeFS: the hash of a path with the swap of its bytes, the fields of a time, and
-- the names that the values of the enumerations print as. A path is the list of its bytes.
use krnl.Base.{ℕ, ◌+◌, ◌*◌, ◌/◌, ◌%◌, ◌^◌, List, [], ◌∷◌, ◌==◌, if◌then◌else◌}
use krnl.Base.Bits.{bit_xor}

-- `hefsi_to_big_endian_64`: the eight bytes in the other order.
unfoldable pub to_big_endian_64 : ℕ → ℕ
to_big_endian_64 val =
    val / 2 ^ 56 % 256
    + val / 2 ^ 48 % 256 * 2 ^ 8
    + val / 2 ^ 40 % 256 * 2 ^ 16
    + val / 2 ^ 32 % 256 * 2 ^ 24
    + val / 2 ^ 24 % 256 * 2 ^ 32
    + val / 2 ^ 16 % 256 * 2 ^ 40
    + val / 2 ^ 8 % 256 * 2 ^ 48
    + val % 256 * 2 ^ 56

abbrev pub fnv_base_offset : ℕ
fnv_base_offset = 0xcbf29ce484222325

abbrev pub fnv_prime_number : ℕ
fnv_prime_number = 0x100000001b3

-- The loop of the hash; a `Utf8Char` has no sign.
unfoldable pub hash_loop : List ℕ → ℕ → ℕ
hash_loop [] hash = hash
hash_loop (c ∷ path) hash = hash_loop path (bit_xor hash (c % 256) * fnv_prime_number % 2 ^ 64)

-- `hefsi_hash_64`.
unfoldable pub hash_64 : List ℕ → ℕ
unfolding hash_loop to_big_endian_64
hash_64 [] = 0
hash_64 (c ∷ path) = to_big_endian_64 (hash_loop (c ∷ path) fnv_base_offset)

unfoldable pub year_get : ℕ → ℕ
year_get raw_atime = raw_atime / 2 ^ 32 % 2 ^ 32

unfoldable pub month_get : ℕ → ℕ
month_get raw_atime = raw_atime / 2 ^ 24 % 2 ^ 32

unfoldable pub day_get : ℕ → ℕ
day_get raw_atime = raw_atime / 2 ^ 16 % 2 ^ 32

unfoldable pub hour_get : ℕ → ℕ
hour_get raw_atime = raw_atime / 2 ^ 8 % 2 ^ 32

unfoldable pub minute_get : ℕ → ℕ
minute_get raw_atime = raw_atime % 256

-- The strings that the functions `hefs_..._to_string` return.
pub data Label : Type 0 where
  unlocked locked error_label invalid : Label
  hard_drive solid_state_drive optical_drive mass_storage_device scsi_drive flash_drive : Label
  utf8 utf16 utf32 utf16_be utf16_le utf32_be utf32_le utf8_be utf8_le : Label
  regular_file directory block_device character_device fifo socket symbolic_link : Label
  no_flags read_only hidden system archive device : Label
  unknown : Label

unfoldable pub status_to_string : ℕ → Label
status_to_string status =
    if status == 0x18
    then unlocked
    else if status == 0x19
    then locked
    else if status == 0x1a
    then error_label
    else if status == 0x1b
    then invalid
    else unknown

unfoldable pub drive_kind_to_string : ℕ → Label
drive_kind_to_string kind =
    if kind == 0xc0
    then hard_drive
    else if kind == 0xc1
    then solid_state_drive
    else if kind == 0x0c
    then optical_drive
    else if kind == 0xcc
    then mass_storage_device
    else if kind == 0xc4
    then scsi_drive
    else if kind == 0xc6
    then flash_drive
    else unknown

unfoldable pub encoding_to_string : ℕ → Label
encoding_to_string encoding =
    if encoding == 0x50
    then utf8
    else if encoding == 0x51
    then utf16
    else if encoding == 0x52
    then utf32
    else if encoding == 0x53
    then utf16_be
    else if encoding == 0x54
    then utf16_le
    else if encoding == 0x55
    then utf32_be
    else if encoding == 0x56
    then utf32_le
    else if encoding == 0x57
    then utf8_be
    else if encoding == 0x58
    then utf8_le
    else unknown

unfoldable pub file_kind_to_string : ℕ → Label
file_kind_to_string kind =
    if kind == 0
    then regular_file
    else if kind == 1
    then directory
    else if kind == 2
    then block_device
    else if kind == 3
    then character_device
    else if kind == 4
    then fifo
    else if kind == 5
    then socket
    else if kind == 6
    then symbolic_link
    else unknown

unfoldable pub file_flags_to_string : ℕ → Label
file_flags_to_string flags =
    if flags == 0
    then no_flags
    else if flags == 0x100
    then read_only
    else if flags == 0x101
    then hidden
    else if flags == 0x102
    then system
    else if flags == 0x103
    then archive
    else if flags == 0x104
    then device
    else unknown
