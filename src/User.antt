-- ===== src/User.antt =====
-- Users and their passwords, from private/minkernel/src/User.cpp and private/minkernel/KernelKit/User.h.
-- A password is a pointer to a string of bytes; the user's name is written to memory at `dst`.
pub mod Passwords
pub mod Names
use krnl.Base.{
  ℕ, zero, suc, ◌+◌, ◌-◌, ◌*◌, ◌%◌, ◌^◌, Bool, true, false, not, ◌||◌, Option, none, some, ltb, leb,
  ◌==◌, if◌then◌else◌, List, [], ◌∷◌,
}
use krnl.Base.Bits.{bit_xor}
use krnl.Base.Memory.{Memory, store8}
use krnl.Ascii.{char, string_len}
use krnl.Utf.{urt_copy_memory}

pub data UserRingKind : Type 0 where
  ring_invalid ring_std_user ring_super_user ring_guest_user ring_recovery_user : UserRingKind

-- The enumerators' values.
abbrev pub ring_value : UserRingKind → ℕ
ring_value ring_invalid = 0
ring_value ring_std_user = 444
ring_value ring_super_user = 666
ring_value ring_guest_user = 777
ring_value ring_recovery_user = 888

abbrev pub max_user_name_len : ℕ
max_user_name_len = 256

-- A user; the name's bytes are in the memory.
pub record User : Type 0 where
  pub user_ring : UserRingKind
  pub user_name : ℕ
  pub user_fnv : ℕ
  pub user_is_adult : Bool

abbrev pub fnv_offset_basis : ℕ
fnv_offset_basis = 14695981039346656037

abbrev pub fnv_prime : ℕ
fnv_prime = 1099511628211

-- A byte as the signed `Char`, extended to 64 bits.
abbrev pub sign_extend : ℕ → ℕ
sign_extend c = if ltb c 128 then c else c + 2 ^ 64 - 256

-- A step of the hash, and its loop up to the zero byte.
abbrev pub fnv_step : ℕ → ℕ → ℕ
fnv_step hash c = bit_xor hash (sign_extend c) * fnv_prime % 2 ^ 64

pub fnv_loop : ℕ → Memory → ℕ → ℕ → Option ℕ
fnv_loop zero m password hash = none
fnv_loop (suc fuel) m password hash =
    let rest = fnv_loop fuel m (password + 1) (fnv_step hash (char m password)) in
    if char m password == 0 then some hash else rest

-- `user_fnv_generator`, for a user that is there.
pub user_fnv_generator : ℕ → Memory → ℕ → Option ℕ
unfolding fnv_loop
user_fnv_generator fuel m password =
    if password == 0
    then some 0
    else if char m password == 0
    then some 0
    else fnv_loop fuel m password fnv_offset_basis

-- `user_set_name`, which returns nothing.
pub user_set_name : ℕ → Memory → ℕ → ℕ → Option Memory
user_set_name fuel m dst src = elim (string_len fuel m src 0) [
  | none ↦ none
  | some n ↦
      (let len = if leb max_user_name_len n then max_user_name_len - 1 else n in
        some (store8 (urt_copy_memory m src dst len).1 (dst + len) 0))
]

-- The constructor, with the memory for the name.
unfoldable pub new_user : ℕ → Memory → ℕ → UserRingKind → ℕ → Option (User × Memory)
unfolding user_set_name
new_user fuel m dst ring_kind user_name = elim (user_set_name fuel m dst user_name) [
  | none ↦ none
  | some m' ↦
      some
        (record { user_ring = ring_kind; user_name = dst; user_fnv = 0; user_is_adult = true }, m')
]

unfoldable pub is_adult : User → Bool
is_adult u = u.user_is_adult

unfoldable pub adult : User → Bool → User
adult u is = record u { user_is_adult = is }

pub save : ℕ → Memory → User → ℕ → Option (Bool × User)
unfolding user_fnv_generator
save fuel m u password =
    if (password == 0) || (char m password == 0)
    then some (false, u)
    else elim (user_fnv_generator fuel m password) [
      | none ↦ none
      | some hash ↦ some (true, record u { user_fnv = hash })
    ]

pub login : ℕ → Memory → User → ℕ → Option Bool
unfolding user_fnv_generator
login fuel m u password =
    if (password == 0) || (char m password == 0)
    then some false
    else elim (user_fnv_generator fuel m password) [
      | none ↦ none
      | some hash ↦ some (u.user_fnv == hash)
    ]

-- `operator==` and `operator!=` compare the rings.
unfoldable pub user_eq : User → User → Bool
user_eq this lhs = ring_value lhs.user_ring == ring_value this.user_ring

unfoldable pub user_ne : User → User → Bool
user_ne this lhs = not (ring_value lhs.user_ring == ring_value this.user_ring)

unfoldable pub is_std_user : User → Bool
is_std_user u = ring_value u.user_ring == ring_value ring_std_user

unfoldable pub is_super_user : User → Bool
is_super_user u = ring_value u.user_ring == ring_value ring_super_user

unfoldable pub is_guest_user : User → Bool
is_guest_user u = ring_value u.user_ring == ring_value ring_guest_user

-- The users that `user_init_std` binds: pointers, 0 for none.
pub record Users : Type 0 where
  pub current_user : ℕ
  pub root_user : ℕ
  pub guest : ℕ
  pub host_user : ℕ

-- `user_init_std`, for the pointers that the three allocations give, and whether it stops the kernel.
unfoldable pub user_init_std : Users → Bool → ℕ → ℕ → ℕ → Bool × Users
user_init_std users recovery new_root new_guest new_recovery =
    let root = if users.root_user == 0 then new_root else users.root_user in
    let guest = if users.guest == 0 then new_guest else users.guest in
    let bound = record users { root_user = root; guest = guest } in
    if root == 0 || guest == 0 then (false, bound) else (
      true,
      record bound { current_user = if recovery then new_recovery else guest; host_user = 0 },
    )
