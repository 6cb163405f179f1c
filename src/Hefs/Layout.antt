-- ===== src/Hefs/Layout.antt =====
-- The bytes that the structures of private/minkernel/FSKit/OpenHeFS.h are packed into, the lowest byte
-- of a number first, and the structures that bytes are read as.
use krnl.Base.{ℕ, zero, suc, ◌+◌, ◌*◌, ◌/◌, ◌%◌, List, [], ◌∷◌, ◌++◌, get_or}
use krnl.Hefs.Nodes.{BootNode, IndexNode, Directory}

-- A number of `n` bytes, the lowest first, and back.
abbrev pub bytes_of : ℕ → ℕ → List ℕ
bytes_of zero v = []
bytes_of (suc n) v = v % 256 ∷ bytes_of n (v / 256)

abbrev pub number_at : List ℕ → ℕ → ℕ → ℕ
number_at bytes at zero = 0
number_at bytes at (suc n) = get_or bytes at 0 + 256 * number_at bytes (at + 1) n

abbrev pub quads : List ℕ → List ℕ
quads [] = []
quads (v ∷ vs) = bytes_of 8 v ++ quads vs

abbrev pub quads_at : List ℕ → ℕ → ℕ → List ℕ
quads_at bytes at zero = []
quads_at bytes at (suc n) = number_at bytes at 8 ∷ quads_at bytes (at + 8) n

abbrev pub bytes_at : List ℕ → ℕ → ℕ → List ℕ
bytes_at bytes at zero = []
bytes_at bytes at (suc n) = get_or bytes at 0 ∷ bytes_at bytes (at + 1) n

unfoldable pub boot_node_bytes : BootNode → List ℕ
boot_node_bytes b =
    b.magic
    ++ b.vol_name
    ++ bytes_of 4 b.version
    ++ bytes_of 8 b.bad_sectors
    ++ bytes_of 8 b.sector_count
    ++ bytes_of 8 b.sector_size
    ++ bytes_of 4 b.checksum
    ++ bytes_of 1 b.disk_kind
    ++ bytes_of 1 b.encoding
    ++ bytes_of 8 b.start_ind
    ++ bytes_of 8 b.end_ind
    ++ bytes_of 8 b.ind_count
    ++ bytes_of 8 b.disk_size
    ++ bytes_of 2 b.disk_status
    ++ bytes_of 2 b.disk_flags
    ++ bytes_of 2 b.vid
    ++ bytes_of 8 b.start_in
    ++ bytes_of 8 b.end_in
    ++ bytes_of 8 b.start_block
    ++ bytes_of 8 b.end_block
    ++ bytes_of 8 b.journal_lba
    ++ b.pad

unfoldable pub index_node_bytes : IndexNode → List ℕ
index_node_bytes n =
    bytes_of 8 n.hash_path
    ++ bytes_of 4 n.flags
    ++ bytes_of 2 n.kind
    ++ bytes_of 4 n.size
    ++ bytes_of 4 n.checksum
    ++ bytes_of 1 n.sym_link
    ++ bytes_of 8 n.created
    ++ bytes_of 8 n.accessed
    ++ bytes_of 8 n.modified
    ++ bytes_of 8 n.deleted
    ++ bytes_of 4 n.uid
    ++ bytes_of 4 n.gid
    ++ bytes_of 4 n.mode
    ++ bytes_of 4 n.offset_slice_low
    ++ bytes_of 4 n.offset_slice_high
    ++ n.pad

unfoldable pub directory_bytes : Directory → List ℕ
directory_bytes d =
    bytes_of 8 d.hash_path
    ++ bytes_of 4 d.flags
    ++ bytes_of 2 d.reserved
    ++ bytes_of 4 d.entry_count
    ++ bytes_of 4 d.checksum
    ++ bytes_of 8 d.created
    ++ bytes_of 8 d.accessed
    ++ bytes_of 8 d.modified
    ++ bytes_of 8 d.deleted
    ++ bytes_of 4 d.uid
    ++ bytes_of 4 d.gid
    ++ bytes_of 4 d.mode
    ++ quads d.in_slices
    ++ bytes_of 1 d.color
    ++ bytes_of 8 d.next
    ++ bytes_of 8 d.prev
    ++ bytes_of 8 d.child
    ++ bytes_of 8 d.parent
    ++ d.pad

unfoldable pub boot_node_of : List ℕ → BootNode
boot_node_of bytes = record {
  magic = bytes_at bytes 0 9;
  vol_name = bytes_at bytes 9 128;
  version = number_at bytes 137 4;
  bad_sectors = number_at bytes 141 8;
  sector_count = number_at bytes 149 8;
  sector_size = number_at bytes 157 8;
  checksum = number_at bytes 165 4;
  disk_kind = number_at bytes 169 1;
  encoding = number_at bytes 170 1;
  start_ind = number_at bytes 171 8;
  end_ind = number_at bytes 179 8;
  ind_count = number_at bytes 187 8;
  disk_size = number_at bytes 195 8;
  disk_status = number_at bytes 203 2;
  disk_flags = number_at bytes 205 2;
  vid = number_at bytes 207 2;
  start_in = number_at bytes 209 8;
  end_in = number_at bytes 217 8;
  start_block = number_at bytes 225 8;
  end_block = number_at bytes 233 8;
  journal_lba = number_at bytes 241 8;
  pad = bytes_at bytes 249 264;
}

unfoldable pub index_node_of : List ℕ → IndexNode
index_node_of bytes = record {
  hash_path = number_at bytes 0 8;
  flags = number_at bytes 8 4;
  kind = number_at bytes 12 2;
  size = number_at bytes 14 4;
  checksum = number_at bytes 18 4;
  sym_link = number_at bytes 22 1;
  created = number_at bytes 23 8;
  accessed = number_at bytes 31 8;
  modified = number_at bytes 39 8;
  deleted = number_at bytes 47 8;
  uid = number_at bytes 55 4;
  gid = number_at bytes 59 4;
  mode = number_at bytes 63 4;
  offset_slice_low = number_at bytes 67 4;
  offset_slice_high = number_at bytes 71 4;
  pad = bytes_at bytes 75 437;
}

unfoldable pub directory_of : List ℕ → Directory
directory_of bytes = record {
  hash_path = number_at bytes 0 8;
  flags = number_at bytes 8 4;
  reserved = number_at bytes 12 2;
  entry_count = number_at bytes 14 4;
  checksum = number_at bytes 18 4;
  created = number_at bytes 22 8;
  accessed = number_at bytes 30 8;
  modified = number_at bytes 38 8;
  deleted = number_at bytes 46 8;
  uid = number_at bytes 54 4;
  gid = number_at bytes 58 4;
  mode = number_at bytes 62 4;
  in_slices = quads_at bytes 66 16;
  color = number_at bytes 194 1;
  next = number_at bytes 195 8;
  prev = number_at bytes 203 8;
  child = number_at bytes 211 8;
  parent = number_at bytes 219 8;
  pad = bytes_at bytes 227 285;
}
