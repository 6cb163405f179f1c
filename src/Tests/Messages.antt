-- ===== src/Tests/Messages.antt =====
-- Messages and semaphores.
use krnl.Base.{ℕ, suc, ◌+◌, ◌<◌, ◌≡◌, ◌≢◌, inl, ◌↔◌, refl, true, false, arith, none, some}
use krnl.Base.Memory.{Memory}
use krnl.Semaphore.{SemaphoreArr, sem_wait, error_success}
use krnl.Semaphore.Permits.{sem_wait_iff}
use krnl.Ipc.{IpcMsg, new_msg, construct_packet, sanitize_packet, pass}
use krnl.Ipc.Delivery.{pass_whole, construct_packet_stuck}

abbrev permits : ℕ → SemaphoreArr
permits count = record { owner = 3; count = count }

abbrev timeout : ℕ
timeout = 10

wait_example :
    (((sem_wait (permits 2) (permits 0) 3 10 false true false).0 ≡ true)
      ↔ (((permits 2).owner ≡ 3) × (0 < (permits 2).count) × (timeout ≢ 0)))
    × ((sem_wait (permits 2) (permits 0) 3 10 false true false).0 ≡ true
        → ((sem_wait (permits 2) (permits 0) 3 10 false true false).2.count + 1 ≡ (permits 2).count)
          × ((sem_wait (permits 2) (permits 0) 3 10 false true false).2.owner ≡ (permits 2).owner)
          × ((sem_wait (permits 2) (permits 0) 3 10 false true false).1 ≡ error_success))
    × ((sem_wait (permits 2) (permits 0) 3 10 false true false).0 ≡ false
        → (sem_wait (permits 2) (permits 0) 3 10 false true false).2 ≡ permits 2)
wait_example = sem_wait_iff (permits 2) (permits 0) 3 10 true false

abbrev message : ℕ → ℕ → IpcMsg
message size buffer = record new_msg { ipc_size = size; ipc_data = buffer }

abbrev bytes : Memory
bytes a = a

whole_example :
    (m' : Memory) × (pass (suc 0) bytes (message 4 10) (message 4 20)
      ≡ some (true, message 4 20, m'))
    × ((i : ℕ)
        → i < (message 4 10).ipc_size
        → m' ((message 4 20).ipc_data + i) ≡ bytes ((message 4 10).ipc_data + i))
whole_example =
    pass_whole 0 bytes (message 4 10) (message 4 20) refl (omega arith) refl (λ e. omega (arith, e))
      (λ e. omega (arith, e)) (inl (omega arith))

stuck_example :
    (sanitize_packet (some (construct_packet none)) ≡ false)
    × (pass 99 bytes (message 5 10) (construct_packet none) ≡ none)
unfolding construct_packet
stuck_example = construct_packet_stuck none 99 bytes (message 5 10) (omega arith)
