-- ===== src/Hefs/Nodes.antt =====
-- The structures that OpenHeFS keeps on a disk, from private/minkernel/FSKit/OpenHeFS.h.
use krnl.Base.{ℕ, List, replicate}

-- `HEFS_BOOT_NODE`.
pub record BootNode : Type 0 where
  pub magic : List ℕ
  pub vol_name : List ℕ
  pub version : ℕ
  pub bad_sectors : ℕ
  pub sector_count : ℕ
  pub sector_size : ℕ
  pub checksum : ℕ
  pub disk_kind : ℕ
  pub encoding : ℕ
  pub start_ind : ℕ
  pub end_ind : ℕ
  pub ind_count : ℕ
  pub disk_size : ℕ
  pub disk_status : ℕ
  pub disk_flags : ℕ
  pub vid : ℕ
  pub start_in : ℕ
  pub end_in : ℕ
  pub start_block : ℕ
  pub end_block : ℕ
  pub journal_lba : ℕ
  pub pad : List ℕ

-- `HEFS_INDEX_NODE`.
pub record IndexNode : Type 0 where
  pub hash_path : ℕ
  pub flags : ℕ
  pub kind : ℕ
  pub size : ℕ
  pub checksum : ℕ
  pub sym_link : ℕ
  pub created : ℕ
  pub accessed : ℕ
  pub modified : ℕ
  pub deleted : ℕ
  pub uid : ℕ
  pub gid : ℕ
  pub mode : ℕ
  pub offset_slice_low : ℕ
  pub offset_slice_high : ℕ
  pub pad : List ℕ

-- `HEFS_INDEX_NODE_DIRECTORY`.
pub record Directory : Type 0 where
  pub hash_path : ℕ
  pub flags : ℕ
  pub reserved : ℕ
  pub entry_count : ℕ
  pub checksum : ℕ
  pub created : ℕ
  pub accessed : ℕ
  pub modified : ℕ
  pub deleted : ℕ
  pub uid : ℕ
  pub gid : ℕ
  pub mode : ℕ
  pub in_slices : List ℕ
  pub color : ℕ
  pub next : ℕ
  pub prev : ℕ
  pub child : ℕ
  pub parent : ℕ
  pub pad : List ℕ

-- A structure of zeros, as `rt_set_memory` and value initialisation leave it.
abbrev pub zero_node : IndexNode
zero_node = record {
  hash_path = 0;
  flags = 0;
  kind = 0;
  size = 0;
  checksum = 0;
  sym_link = 0;
  created = 0;
  accessed = 0;
  modified = 0;
  deleted = 0;
  uid = 0;
  gid = 0;
  mode = 0;
  offset_slice_low = 0;
  offset_slice_high = 0;
  pad = replicate 437 0;
}

abbrev pub zero_directory : Directory
zero_directory = record {
  hash_path = 0;
  flags = 0;
  reserved = 0;
  entry_count = 0;
  checksum = 0;
  created = 0;
  accessed = 0;
  modified = 0;
  deleted = 0;
  uid = 0;
  gid = 0;
  mode = 0;
  in_slices = replicate 16 0;
  color = 0;
  next = 0;
  prev = 0;
  child = 0;
  parent = 0;
  pad = replicate 285 0;
}
