-- ===== src/Pef.antt =====
-- The PEF loader of private/minkernel/src/PEFCodeMgr.cpp over a blob in memory, in its AMD64 build. A
-- name is the list of its bytes, without the byte 0 that ends it; a name field of a header is the list
-- of its 256 bytes. What is read from a file by the file manager is not modelled.
pub mod Interface
pub mod Container
pub mod Loader
pub mod Bounds
pub mod Blobs
pub mod Symbols
