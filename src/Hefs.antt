-- ===== src/Hefs.antt =====
-- The OpenHeFS file system of private/minkernel/src/FS/OpenHeFS+FileSystemParser.cpp and
-- private/minkernel/FSKit/OpenHeFS.h, over the drives of private/minkernel/src/DriveMgr.cpp.
pub mod Words
pub mod Nodes
pub mod Layout
pub mod Sectors
pub mod Drive
pub mod Scan
pub mod Tree
pub mod Directories
pub mod Files
pub mod Parser
pub mod Format
pub mod Swap
pub mod Walks
pub mod Transfers
pub mod Slices
pub mod Create
pub mod Verdicts
pub mod Search
pub mod Lookup
pub mod Owners
pub mod Delete
pub mod Exclusive
pub mod Ownership
pub mod Updates
pub mod Invariant
pub mod Regions
pub mod Blocks
pub mod Children
pub mod Places
pub mod Firsts
pub mod Removal
