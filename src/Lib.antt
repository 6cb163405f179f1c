-- ===== src/Lib.antt =====
-- The kernel's memory managers, text routines, message passing, process scheduler, file system and
-- loader.
--
-- Paths are from the repository's root. Memory is a function from addresses to bytes; pointers and
-- words are natural numbers, 0 for null, and sums that the program lets wrap wrap at their width.
--
--   Base                the names and lemmas that the others share: lists, Boolean tests, byte memory
--                       with 64-bit words, bit operations, signed integers.
--   Crc                 private/minkernel/src/Crc32.cpp: the table and `ke_calculate_crc32`
--                       (`calculate_crc32`).
--   Physical            private/minkernel/HALKit/Generic/HalPhysicalMemory.cpp: `Pmm` holds the
--                       statics; `pmmi_init`, `pmmi_alloc_frame` and `pmmi_free_frame` keep their names.
--                       Physical.Refinement states the abstract allocator.
--   Ascii, Utf          private/minkernel/src/AsciiUtils.cpp and UtfUtils.cpp: the functions without
--                       their prefix `rt_`, over the memory.
--   Bitmap              private/minkernel/src/BitMapMgr.cpp: `BitMap` holds the memory and the cursor;
--                       the alignment of a block and the start of the arena are arguments.
--   Heap                private/minkernel/src/HeapMgr.cpp and PageMgr.cpp, on top of Bitmap and Crc.
--   Paging              private/minkernel/HALKit/AMD64/HalPagingMgr.cpp: the tables lie in the memory
--                       of the frame allocator, which gives their frames; `enter` and `walk_from`
--                       are the loop of `mm_walk_page`.
--   Indexer             private/minkernel/src/IndexableProperty.cpp.
--   Process             the process of private/minkernel/KernelKit/UserProcessScheduler.h and
--                       CoreProcessScheduler.h.
--   Mutex               private/minkernel/src/BinaryMutex.cpp, over a store of processes.
--   Semaphore           private/minkernel/KernelKit/Semaphore.h.
--   Ip, Ipc             private/minkernel/src/Network/IPAddress.cpp, IPCAddress.cpp, IPCMessage.cpp.
--   User                private/minkernel/src/User.cpp and KernelKit/User.h.
--   Cpu                 private/minkernel/src/HardwareThreadScheduler.cpp, and
--                       `UserProcessHelper::Switch`.
--   Scheduler           private/minkernel/src/UserProcessScheduler.cpp: `spawn`, `exit_process`,
--                       `remove`; Scheduler.Dispatch has `run` over one team.
--   Hefs                private/minkernel/src/FS/OpenHeFS+FileSystemParser.cpp and FSKit/OpenHeFS.h, over the
--                       drive of private/minkernel/src/DriveMgr.cpp: Hefs.Nodes and Hefs.Layout have the
--                       structures and their bytes, Hefs.Drive the sectors; Hefs.Tree, Directories,
--                       Files, Parser and Format have the functions under their names without the
--                       prefix `hefsi_`. `scan` is the loop over the directory region.
--   Pef                 private/minkernel/src/PEFCodeMgr.cpp and KernelKit/PEF.h: the loader of a blob in
--                       memory. Pef.Interface is what it asks of frames and pages, filled by
--                       Physical and Paging.
--   Pe                  private/minkernel/src/PE32CodeMgr.cpp, KernelKit/PE.h and CFKit/Utils.h: the
--                       loader of PE32 images in memory, over the same pages as Pef. Pe.Headers is
--                       what the headers hold, Pe.Image the members of the loader, Pe.Exports its
--                       search for a symbol.
--   Kpc                 the error codes of private/minkernel/KernelKit/KPC.h that these set.
--   Tests               the theorems at concrete inputs.
--
-- The heap takes its blocks from the bitmap allocator, and the page tables their frames from the
-- frame allocator; the scheduler changes processes and hands a scheduled one to a hardware thread;
-- users, messages and the indexer copy their bytes with the routines of Ascii and Utf.
--
-- Loops over strings and blocks whose length the code does not bound run on fuel, with `none` when
-- it runs out: one more than the length of the string, the number of blocks, or the number of bits
-- of a number to print is enough. The wait for a message's lock runs on fuel too: one step is
-- enough if the lock is free. A scan of the directory region runs on steps, of which one for each
-- 512 bytes of the region is enough, and a disk's transfers succeed; the block of a file is
-- transferred in whole sectors, fewer than 65536. The loop over the sections of a PE32 image has
-- 65536 steps, as their number has 16 bits; its pages are mapped to zeroed frames before they are
-- filled. The platform's calls, allocations by `new`, timers and what other threads do meanwhile
-- are parameters. Spin locks, printing, flushing and the page mappings of a spawn are left out, as
-- are the other file system, files opened by path, device drivers, start-up code, the boot loader,
-- and the libraries and tools around the kernel.
pub mod Base
pub mod Crc
pub mod Physical
pub mod Ascii
pub mod Utf
pub mod Bitmap
pub mod Heap
pub mod Process
pub mod Mutex
pub mod Semaphore
pub mod Ip
pub mod Ipc
pub mod User
pub mod Paging
pub mod Indexer
pub mod Kpc
pub mod Hefs
pub mod Pef
pub mod Pe
pub mod Cpu
pub mod Scheduler
pub mod Tests
