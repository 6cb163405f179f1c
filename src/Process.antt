-- ===== src/Process.antt =====
-- The user process of private/minkernel/KernelKit/UserProcessScheduler.h, with the enumerations of
-- CoreProcessScheduler.h beside it and the methods of private/minkernel/src/UserProcessScheduler.cpp
-- that touch one process alone. Pointers are numbers, 0 for null; the times are 64-bit counters.
pub mod States
use krnl.Base.{
  ℕ, zero, suc, ◌+◌, ◌*◌, ◌^◌, Bool, true, false, not, ◌&&◌, List, [], ◌∷◌, ltb, ◌==◌,
  if◌then◌else◌, get_or, replicate,
}
use krnl.Base.Int.{ℤ}

pub data ProcessStatusKind : Type 0 where
  invalid starting running killed frozen finished : ProcessStatusKind

pub data AffinityKind : Type 0 where
  invalid ultra_high very_high high standard low_usage very_low_usage : AffinityKind

pub data ExecutableKind : Type 0 where
  invalid executable dylib : ExecutableKind

-- The enumerators' values.
abbrev pub affinity_value : AffinityKind → ℕ
affinity_value AffinityKind.invalid = 0
affinity_value ultra_high = 100
affinity_value very_high = 150
affinity_value high = 200
affinity_value standard = 1000
affinity_value low_usage = 1500
affinity_value very_low_usage = 2000

abbrev pub status_value : ProcessStatusKind → ℕ
status_value ProcessStatusKind.invalid = 0
status_value starting = 100
status_value running = 101
status_value killed = 102
status_value frozen = 103
status_value finished = 104

abbrev pub is_running : ProcessStatusKind → Bool
is_running running = true
is_running _ = false

abbrev pub is_invalid : ProcessStatusKind → Bool
is_invalid ProcessStatusKind.invalid = true
is_invalid _ = false

abbrev pub is_frozen : ProcessStatusKind → Bool
is_frozen frozen = true
is_frozen _ = false

-- The order of affinities is that of their values.
abbrev pub affinity_lt : AffinityKind → AffinityKind → Bool
affinity_lt lhs rhs = ltb (affinity_value lhs) (affinity_value rhs)

abbrev pub affinity_eq : AffinityKind → AffinityKind → Bool
affinity_eq lhs rhs = affinity_value lhs == affinity_value rhs

abbrev pub max_stack_sz : ℕ
max_stack_sz = 8 * 1024

abbrev pub max_memory_limit : ℕ
max_memory_limit = 128 * 1024 * 1024 * 1024

abbrev pub name_len : ℕ
name_len = 128

abbrev pub process_limit_per_team : ℕ
process_limit_per_team = 32

abbrev pub word_mod : ℕ
word_mod = 2 ^ 64

-- `name` is the whole array of bytes.
pub record UserProcess : Type 0 where
  pub name : List ℕ
  pub stack_frame : ℕ
  pub affinity : AffinityKind
  pub status : ProcessStatusKind
  pub stack_size : ℕ
  pub dylib_delegate : ℕ
  pub has_parent : Bool
  pub used_memory : ℕ
  pub signal_id : ℕ
  pub image_code : ℕ
  pub image_blob : ℕ
  pub image_blob_sz : ℕ
  pub file_tree : ℕ
  pub heap_tree : ℕ
  pub p_time : ℕ
  pub r_time : ℕ
  pub u_time : ℕ
  pub s_time : ℕ
  pub process_id : ℤ
  pub kind : ExecutableKind
  pub last_exit_code : ℤ
  pub vm_register : ℕ

pub crash : UserProcess → UserProcess
crash p = if not (is_running p.status) then p else record p { status = killed }

-- `operator bool`.
pub is_alive : UserProcess → Bool
is_alive p = is_running p.status

pub wake : UserProcess → Bool → UserProcess
wake p should_wakeup = record p { status = if should_wakeup then running else frozen }

-- `sig` is `sig_generate_unique<SIGTRAP>()`.
unfoldable pub can_be_scheduled : ℕ → UserProcess → Bool
can_be_scheduled sig p =
    if affinity_eq p.affinity ultra_high
    then true
    else if not (is_running p.status)
    then false
    else if affinity_eq p.affinity AffinityKind.invalid
    then false
    else if ltb max_stack_sz p.stack_size
    then false
    else if get_or p.name 0 0 == 0
    then false
    else if p.signal_id == sig
    then false
    else ltb p.p_time 1
