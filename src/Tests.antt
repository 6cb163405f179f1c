-- ===== src/Tests.antt =====
-- The theorems at concrete inputs, a module for each part of the program.
mod Frames
mod Blocks
mod Strings
mod Tasks
mod Messages
mod Files
mod Loaders
mod Images
