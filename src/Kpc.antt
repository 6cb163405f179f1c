-- ===== src/Kpc.antt =====
-- The error codes of private/minkernel/KernelKit/KPC.h that the file system and the loader set.
use krnl.Base.{ℕ}

abbrev pub kpc_success : ℕ
kpc_success = 0

abbrev pub kpc_executable : ℕ
kpc_executable = 33

abbrev pub kpc_file_not_found : ℕ
kpc_file_not_found = 35

abbrev pub kpc_directory_not_found : ℕ
kpc_directory_not_found = 36

abbrev pub kpc_heap_out_of_memory : ℕ
kpc_heap_out_of_memory = 44

abbrev pub kpc_disk_is_corrupted : ℕ
kpc_disk_is_corrupted = 54

abbrev pub kpc_disk : ℕ
kpc_disk = 55

abbrev pub kpc_invalid_data : ℕ
kpc_invalid_data = 56
