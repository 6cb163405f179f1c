-- ===== src/Ipc.antt =====
-- Messages between processes, from private/minkernel/src/Network/IPCAddress.cpp and IPCMessage.cpp and
-- private/minkernel/NetworkKit/IPC.h. A message's `ipc_data` is a pointer into the memory.
pub mod Delivery
use krnl.Base.{
  ℕ, zero, suc, ◌+◌, ◌-◌, ◌%◌, ◌^◌, Bool, true, false, not, ◌||◌, ◌&&◌, Option, none, some, ltb,
  ◌==◌, if◌then◌else◌,
}
use krnl.Base.Memory.{Memory}
use krnl.Ascii.{copy_memory_safe}

pub record IpcAddr : Type 0 where
  pub user_process_id : ℕ
  pub user_process_team : ℕ

pub record IpcMsg : Type 0 where
  pub ipc_header_magic : ℕ
  pub ipc_endianess : ℕ
  pub ipc_packet_size : ℕ
  pub ipc_from : IpcAddr
  pub ipc_to : IpcAddr
  pub ipc_crc32 : ℕ
  pub ipc_msg : ℕ
  pub ipc_msg_sz : ℕ
  pub ipc_lock : ℕ
  pub ipc_size : ℕ
  pub ipc_data : ℕ

abbrev pub header_magic : ℕ
header_magic = 76874804

abbrev pub lock_free : ℕ
lock_free = 1

abbrev pub lock_used : ℕ
lock_used = 2

-- `sizeof(IPC_MSG)`, packed and rounded up to 8.
abbrev pub sizeof_msg : ℕ
sizeof_msg = 80

-- The values of `Endian`, and those of the message's own enumeration.
abbrev pub endian_big : ℕ
endian_big = 1

abbrev pub endian_little : ℕ
endian_little = 2

abbrev pub ipc_little_endian : ℕ
ipc_little_endian = 0

abbrev pub ipc_big_endian : ℕ
ipc_big_endian = 1

pub addr_eq : IpcAddr → IpcAddr → Bool
addr_eq this addr =
    (addr.user_process_id == this.user_process_id)
    && (addr.user_process_team == this.user_process_team)

pub addr_ne : IpcAddr → IpcAddr → Bool
addr_ne this addr =
    not (addr.user_process_id == this.user_process_id)
    || not (addr.user_process_team == this.user_process_team)

-- `RTL_ENDIAN` compares the first byte at an address with a value.
abbrev pub endian_of : ℕ → ℕ → ℕ
endian_of first value = if first == value then endian_big else endian_little

-- The first byte of a message, that of its magic number.
abbrev pub first_byte : IpcMsg → ℕ
first_byte p = p.ipc_header_magic % 256

-- `ipc_int_sanitize_packet`.
pub int_sanitize_packet : IpcMsg → Bool
unfolding addr_eq
int_sanitize_packet p =
    let endian = endian_of (first_byte p) (first_byte p) in
    if (endian == endian_big) && (p.ipc_endianess == ipc_little_endian)
    then false
    else if (endian == endian_little) && (p.ipc_endianess == ipc_big_endian)
    then false
    else if addr_eq p.ipc_from p.ipc_to || ltb p.ipc_packet_size 1
    then false
    else ltb 1 p.ipc_packet_size && (p.ipc_header_magic == header_magic)

pub sanitize_packet : Option IpcMsg → Bool
unfolding int_sanitize_packet
sanitize_packet none = false
sanitize_packet (some p) = int_sanitize_packet p

abbrev pub no_addr : IpcAddr
no_addr = record { user_process_id = 0; user_process_team = 0 }

-- A new message, all zeros.
abbrev pub new_msg : IpcMsg
new_msg = record {
  ipc_header_magic = 0;
  ipc_endianess = 0;
  ipc_packet_size = 0;
  ipc_from = no_addr;
  ipc_to = no_addr;
  ipc_crc32 = 0;
  ipc_msg = 0;
  ipc_msg_sz = 0;
  ipc_lock = 0;
  ipc_size = 0;
  ipc_data = 0;
}

-- `ipc_construct_packet`, on the message there is, or a new one.
unfoldable pub construct_packet : Option IpcMsg → IpcMsg
construct_packet given =
    let p : IpcMsg = elim given [ none ↦ new_msg | some p ↦ p ] in
    record p {
      ipc_header_magic = header_magic;
      ipc_endianess = endian_of (first_byte p) (first_byte p);
      ipc_packet_size = sizeof_msg;
      ipc_to = no_addr;
      ipc_from = no_addr;
      ipc_lock = lock_free;
    }

-- The loop of `Pass`, which waits for the lock: it never changes the count that it tests. Here
-- nobody else changes the lock.
pub wait_lock : ℕ → ℕ → ℕ → Option Bool
wait_lock zero timeout lock = none
wait_lock (suc fuel) timeout lock =
    let rest = wait_lock fuel timeout lock in
    if not (lock % lock_used == 0)
    then (if ltb 1000000 timeout then some false else rest)
    else some true

-- `IPC_MSG::Pass` from a message to another: the answer, the target and the memory.
pub pass : ℕ → Memory → IpcMsg → IpcMsg → Option (Bool × IpcMsg × Memory)
unfolding wait_lock
pass fuel m src target =
    if ltb src.ipc_size target.ipc_size
    then some (false, target, m)
    else elim (wait_lock fuel 0 target.ipc_lock) [
      | none ↦ none
      | some free ↦
          if not free
          then some (false, target, m)
          else (let taken = (target.ipc_lock + 1) % 2 ^ 32 in
              some (
                true,
                record target { ipc_lock = (taken + 2 ^ 32 - 1) % 2 ^ 32 },
                (copy_memory_safe m src.ipc_data target.ipc_data src.ipc_size target.ipc_size).1,
              ))
    ]
