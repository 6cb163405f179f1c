-- ===== src/Ip.antt =====
-- IP addresses, from private/minkernel/src/Network/IPAddress.cpp. The bytes of an address are a list,
-- of 4 for version 4 and of 16 for version 6.
pub mod Checks
use krnl.Base.{
  ℕ, zero, suc, ◌+◌, Bool, true, false, not, ◌||◌, ◌&&◌, List, [], ◌∷◌, Option, none, some, ltb,
  leb, ◌==◌, if◌then◌else◌, length, get_elem?,
}
use krnl.Base.Int.{ℤ, pos, negsuc}
use krnl.Base.Memory.{Memory}
use krnl.Ascii.{char, string_len, is_alnum}

-- `operator==` and `operator!=`, which the two versions share but for the number of bytes.
pub ip_eq : List ℕ → List ℕ → Bool
ip_eq (x ∷ xs) (y ∷ ys) = let rest = ip_eq xs ys in if not (y == x) then false else rest
ip_eq _ _ = true

pub ip_ne : List ℕ → List ℕ → Bool
ip_ne (x ∷ xs) (y ∷ ys) = let rest = ip_ne xs ys in if y == x then false else rest
ip_ne _ _ = true

-- `operator[]`, whose placeholder is the character 0.
unfoldable pub ip_at : List ℕ → ℕ → ℕ
ip_at addr index =
    if leb (length addr) index then 48 else elim (get_elem? addr index) [ none ↦ 48 | some b ↦ b ]

-- The same of version 6.
unfoldable pub ip6_eq : List ℕ → List ℕ → Bool
unfolding ip_eq
ip6_eq addr ipv6 = ip_eq addr ipv6

unfoldable pub ip6_ne : List ℕ → List ℕ → Bool
unfolding ip_ne
ip6_ne addr ipv6 = ip_ne addr ipv6

unfoldable pub ip6_at : List ℕ → ℕ → ℕ
unfolding ip_at
ip6_at addr index = ip_at addr index

-- The loop of `IpCheckVersion4`: `n` characters more. The answer is `none` where the code returns
-- NO inside the loop, and else the number of dots.
pub check_loop : Memory → ℕ → ℕ → ℕ → ℕ → Option ℕ
check_loop m ip cnter dot_cnter zero = some dot_cnter
check_loop m ip cnter dot_cnter (suc n) =
    let after_dot = check_loop m (ip + 1) 0 (dot_cnter + 1) n in
    let after_digit = check_loop m (ip + 1) (cnter + 1) dot_cnter n in
    let c = char m ip in
    if c == 46
    then after_dot
    else if (ltb 53 c && ltb c 128) || (ltb c 48 || leb 128 c)
    then none
    else if not (is_alnum (pos c))
    then none
    else if ltb 3 cnter
    then none
    else after_digit

pub ip_check_version4 : ℕ → Memory → ℕ → Option Bool
unfolding check_loop
ip_check_version4 fuel m ip = if ip == 0 then some false else elim (string_len fuel m ip 0) [
  | none ↦ none
  | some n ↦ elim (check_loop m ip 0 0 n) [
    | none ↦ some false
    | some dot_cnter ↦ if not (dot_cnter == 3) then some false else some true
  ]
]
