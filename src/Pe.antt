-- ===== src/Pe.antt =====
-- The PE32+ loader of private/minkernel/src/PE32CodeMgr.cpp, in its AMD64 build, over a blob in memory.
pub mod Headers
pub mod Image
pub mod Window
pub mod Sections
pub mod Accepted
pub mod Exports
