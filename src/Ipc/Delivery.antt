-- ===== src/Ipc/Delivery.antt =====
-- Which messages arrive.
use krnl.Base.{
  ℕ, zero, suc, ◌+◌, ◌-◌, ◌%◌, ◌^◌, ◌≤◌, ◌<◌, ◌≡◌, ◌≢◌, ◌⊎◌, inr, ◌↔◌, refl, subst, ap, ap₂, ◌∙◌,
  true, false, not, Option, none, some, arith,
}
use krnl.Base.Memory.{Memory, fill}
use krnl.Ascii.{copy_memory_safe}
use krnl.Ascii.Copy.{copy_memory_safe_fits, copy_memory_safe_fails}
use krnl.Ipc.{
  IpcAddr, IpcMsg, addr_eq, addr_ne, sanitize_packet, int_sanitize_packet, construct_packet,
  wait_lock, pass, lock_free,
}

addr_eq→eq :
    (a b : IpcAddr)
    → a.user_process_id ≡ b.user_process_id
    → a.user_process_team ≡ b.user_process_team
    → a ≡ b
addr_eq→eq a b e f = ap₂ (λ x y. record { user_process_id = x; user_process_team = y }) e f

addr_eq_self : (a : IpcAddr) → addr_eq a a ≡ true
unfolding addr_eq
addr_eq_self a = ground arith

-- An address equals another exactly if both numbers agree, and the two tests exclude each other.
pub addr_eq_iff :
    (a b : IpcAddr) → ((addr_eq a b ≡ true) ↔ (a ≡ b)) × (addr_ne a b ≡ not (addr_eq a b))
unfolding addr_eq addr_ne
addr_eq_iff a b = (
  (
    λ e. addr_eq→eq a b (ground arith) (ground arith),
    λ e. subst (λ c. addr_eq a c ≡ true) e (addr_eq_self a),
  ),
  ground arith,
)

wait_lock-odd : (fuel lock : ℕ) → lock % 2 ≢ 0 → wait_lock fuel 0 lock ≡ none
unfolding wait_lock
wait_lock-odd zero lock h = refl
wait_lock-odd (suc fuel) lock h = ground (arith, wait_lock-odd fuel lock h)

-- A packet that was just constructed is refused by the check, since its two addresses are one, and a
-- message of no greater size passed to it waits for ever: its lock is odd, and no fuel is enough.
pub construct_packet_stuck :
    (given : Option IpcMsg) (fuel : ℕ) (m : Memory) (src : IpcMsg)
    → (construct_packet given).ipc_size ≤ src.ipc_size
    → (sanitize_packet (some (construct_packet given)) ≡ false)
      × (pass fuel m src (construct_packet given) ≡ none)
unfolding construct_packet sanitize_packet int_sanitize_packet addr_eq pass
construct_packet_stuck given fuel m src h =
    (ground arith, ground (arith, wait_lock-odd fuel lock_free (λ e. ground arith)))

relocked : (lock : ℕ) → lock < 2 ^ 32 → ((lock + 1) % 2 ^ 32 + 2 ^ 32 - 1) % 2 ^ 32 ≡ lock
relocked lock h = omega arith

pass_even :
    (fuel : ℕ) (m : Memory) (src target : IpcMsg)
    → target.ipc_lock % 2 ≡ 0
    → target.ipc_lock < 2 ^ 32
    → target.ipc_size ≤ src.ipc_size
    → pass (suc fuel) m src target
      ≡ some (
        true,
        target,
        (copy_memory_safe m src.ipc_data target.ipc_data src.ipc_size target.ipc_size).1,
      )
unfolding pass wait_lock
pass_even fuel m src target even word fits =
    ground arith
    ∙ ap
        (λ lock. some (
          true,
          record target { ipc_lock = lock },
          (copy_memory_safe m src.ipc_data target.ipc_data src.ipc_size target.ipc_size).1,
        ))
        (relocked target.ipc_lock word)

-- A message passed to one of even lock and the same size arrives whole, and the lock is as before.
pub pass_whole :
    (fuel : ℕ) (m : Memory) (src target : IpcMsg)
    → target.ipc_lock % 2 ≡ 0
    → target.ipc_lock < 2 ^ 32
    → src.ipc_size ≡ target.ipc_size
    → src.ipc_data ≢ 0
    → target.ipc_data ≢ 0
    → (src.ipc_data + src.ipc_size ≤ target.ipc_data) ⊎ (target.ipc_data ≤ src.ipc_data)
    → (m' : Memory) × (pass (suc fuel) m src target ≡ some (true, target, m'))
      × ((i : ℕ) → i < src.ipc_size → m' (target.ipc_data + i) ≡ m (src.ipc_data + i))
pass_whole fuel m src target even word same s t apart =
    let (answer, inside, outside) =
      copy_memory_safe_fits m src.ipc_data target.ipc_data src.ipc_size target.ipc_size s t
        (omega arith) in
    (
      (copy_memory_safe m src.ipc_data target.ipc_data src.ipc_size target.ipc_size).1,
      pass_even fuel m src target even word (omega arith),
      inside (omega arith),
    )

-- A longer message passed to one of even lock is lost, though the answer is yes: the target's data are
-- all zero then.
pass_too_long :
    (fuel : ℕ) (m : Memory) (src target : IpcMsg)
    → target.ipc_lock % 2 ≡ 0
    → target.ipc_lock < 2 ^ 32
    → target.ipc_size < src.ipc_size
    → target.ipc_data ≢ 0
    → (m' : Memory) × (pass (suc fuel) m src target ≡ some (true, target, m'))
      × ((b : ℕ) → m' b ≡ fill m target.ipc_data 0 target.ipc_size b)
pass_too_long fuel m src target even word long t = (
  (copy_memory_safe m src.ipc_data target.ipc_data src.ipc_size target.ipc_size).1,
  pass_even fuel m src target even word (omega arith),
  λ b.
      (copy_memory_safe_fails m src.ipc_data target.ipc_data src.ipc_size target.ipc_size b
        (inr (inr long))).1
      ∙ ground arith,
)
