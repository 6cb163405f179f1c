-- ===== src/Tests/Strings.antt =====
-- Strings in a memory whose bytes are written out.
use krnl.Base.{
  ℕ, suc, ◌+◌, ◌-◌, ◌≤◌, ◌<◌, ◌≡◌, ◌⊎◌, inl, ◌↔◌, refl, Bool, true, arith, some, ◌==◌, ltb,
  if◌then◌else◌,
}
use krnl.Base.Memory.{Memory}
use krnl.Ascii.{to_string, string_in_string}
use krnl.Ascii.Text.{IsString}
use krnl.Ascii.Find.{Found, string_in_string-Found}
use krnl.Ascii.Digits.{parse, to_string-parse}
use krnl.Ip.{ip_check_version4}
use krnl.Ip.Checks.{Dotted, ip_check_version4-Dotted}
use krnl.Indexer.{IndexableProperty, indexer_claimed}
use krnl.User.{User, fnv_offset_basis, save, login, user_set_name, max_user_name_len, ring_std_user}
use krnl.User.Passwords.{characters, fnv, login-save}
use krnl.User.Names.{user_set_name-IsString}

-- The string "abb" at 10, "b" at 20, and the digits of an address, "1.2.3.4", at 30.
abbrev text : Memory
text a =
    if a == 10
    then 97
    else if a == 11
    then 98
    else if a == 12
    then 98
    else if a == 20
    then 98
    else if a == 30
    then 49
    else if a == 31
    then 46
    else if a == 32
    then 50
    else if a == 33
    then 46
    else if a == 34
    then 51
    else if a == 35
    then 46
    else if a == 36
    then 52
    else 0

abb-IsString : IsString text 10 3
abb-IsString = record { filled = λ i h e. ground (arith, below i h); ends = refl }
  where
    below : (i : ℕ) → i < 3 → (i ≡ 0) ⊎ ((i ≡ 1) ⊎ (i ≡ 2))
    below i h = omega arith

b-IsString : IsString text 20 1
b-IsString = record { filled = λ i h e. ground arith; ends = refl }

address-IsString : IsString text 30 7
address-IsString = record { filled = λ i h e. ground arith; ends = refl }

to_string_example :
    (n : ℕ) × (m' : Memory) × (to_string (suc 8) text 100 255 16 ≡ some (true, m'))
    × IsString m' 100 n
    × (parse m' 100 16 n 0 ≡ 255)
    × ((a : ℕ) → (a < 100) ⊎ (100 + n < a) → m' a ≡ text a)
to_string_example =
    to_string-parse 8 text 100 255 16 (λ e. omega (arith, e)) (omega arith) (omega arith)
      (omega arith)

find_example :
    (found : ℕ) × (string_in_string 9 text 10 20 ≡ some found)
    × Found text 20 1 10 (3 + 1 - 1) found
find_example =
    string_in_string-Found text 10 20 3 1 9 (λ e. omega (arith, e)) (λ e. omega (arith, e))
      abb-IsString b-IsString (omega arith) (omega arith)

ip_example :
    (answer : Bool) × (ip_check_version4 9 text 30 ≡ some answer)
    × (answer ≡ true → Dotted text 30 7 3)
ip_example = ip_check_version4-Dotted text 30 7 9 address-IsString (omega arith)

abbrev guest : User
guest = record { user_ring = ring_std_user; user_name = 200; user_fnv = 0; user_is_adult = true }

login_example :
    (u' : User) × (save 9 text guest 10 ≡ some (true, u'))
    × ((login 9 text u' 20 ≡ some true) ↔ (
        (0 < 1)
        × (fnv fnv_offset_basis (characters text 20 1)
            ≡ fnv fnv_offset_basis (characters text 10 3))))
login_example =
    login-save text text guest 10 20 3 1 9 (λ e. omega (arith, e)) (λ e. omega (arith, e))
      abb-IsString b-IsString (omega arith) (omega arith) (omega arith)

name_example :
    (m' : Memory) × (k : ℕ) × (user_set_name 9 text 200 10 ≡ some m')
    × (k ≡ (if ltb 3 max_user_name_len then 3 else max_user_name_len - 1))
    × IsString m' 200 k
    × ((i : ℕ) → i < k → m' (200 + i) ≡ text (10 + i))
    × ((b : ℕ) → (b < 200) ⊎ (200 + max_user_name_len ≤ b) → m' b ≡ text b)
name_example =
    user_set_name-IsString 9 text 200 10 3 (λ e. omega (arith, e)) (λ e. omega (arith, e))
      abb-IsString (omega arith) (inl (omega arith))

abbrev claimed : IndexableProperty
claimed = record { path = 300; flags = indexer_claimed }
