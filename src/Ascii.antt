-- ===== src/Ascii.antt =====
-- Strings and blocks of bytes, from private/minkernel/src/AsciiUtils.cpp. A pointer is a number, 0
-- for null, and each function takes the memory and gives the one it leaves. A `while` over a string
-- of unknown length runs on fuel, with `none` when the fuel runs out.
pub mod Digits
pub mod Reverse
pub mod Copy
pub mod Text
pub mod Find
use krnl.Base.{
  ℕ, zero, suc, ◌+◌, ◌-◌, ◌/◌, ◌%◌, ◌^◌, Bool, true, false, not, ◌&&◌, ◌||◌, Option, none, some,
  ltb, leb, ◌==◌, if◌then◌else◌,
}
use krnl.Base.Int.{ℤ, pos, negsuc}
use krnl.Base.Memory.{Memory, store8}

-- A byte of the memory, and its value as the signed `Char`, shifted up by 128.
abbrev pub char : Memory → ℕ → ℕ
char m a = m a % 256

abbrev pub shifted : ℕ → ℕ
shifted c = (c + 128) % 256

abbrev pub minus : ℕ → ℕ → ℤ
minus a b = if ltb a b then negsuc (b - a - 1) else pos (a - b)

-- The cast of a size to `Int32`.
abbrev pub to_int32 : ℕ → ℤ
to_int32 n = let w = n % 2 ^ 32 in if ltb w (2 ^ 31) then pos w else negsuc (2 ^ 32 - w - 1)

-- `rt_string_cmp`: the rest of the loop from `i` on, of `size` bytes more.
unfoldable pub string_cmp : Memory → ℕ → ℕ → ℕ → ℤ
string_cmp m src cmp zero = pos 0
string_cmp m src cmp (suc size) =
    let rest = string_cmp m (src + 1) (cmp + 1) size in
    if not (char m src == char m cmp)
    then minus (shifted (char m src)) (shifted (char m cmp))
    else rest

-- `rt_string_len` with a limit.
pub string_len_max : Memory → ℕ → ℕ → ℕ
string_len_max m str zero = 0
string_len_max m str (suc max_len) =
    let rest = string_len_max m (str + 1) max_len in if not (char m str == 0) then rest + 1 else 0

-- `rt_string_len` with none.
pub string_len : ℕ → Memory → ℕ → ℕ → Option ℕ
string_len zero m ptr cnt = none
string_len (suc fuel) m ptr cnt =
    let rest = string_len fuel m ptr (cnt + 1) in
    if not (char m (ptr + cnt) == 0) then rest else some cnt

-- The loops of the copy and of the fill, a byte at a time upwards.
unfoldable pub copy_bytes : Memory → ℕ → ℕ → ℕ → Memory
copy_bytes m src dst zero = m
copy_bytes m src dst (suc len) = copy_bytes (store8 m dst (m src)) (src + 1) (dst + 1) len

pub set_bytes : Memory → ℕ → ℕ → ℕ → Memory
set_bytes m p v zero = m
set_bytes m p v (suc len) = set_bytes (store8 m p v) (p + 1) v len

pub set_memory_safe : Memory → ℕ → ℕ → ℕ → ℕ → ℕ × Memory
unfolding set_bytes
set_memory_safe m dst value len dst_size =
    if dst == 0 || ltb dst_size len then (0, m) else (dst, set_bytes m dst (value % 256) len)

unfoldable pub copy_memory_safe : Memory → ℕ → ℕ → ℕ → ℕ → ℤ × Memory
unfolding copy_bytes set_memory_safe
copy_memory_safe m src dst len dst_size =
    if (src == 0 || dst == 0) || ltb dst_size len
    then (
      negsuc 0,
      if not (dst == 0) && not (dst_size == 0)
          then (set_memory_safe m dst 0 dst_size dst_size).1
          else m,
    )
    else (to_int32 len, copy_bytes m src dst len)

unfoldable pub zero_memory : Memory → ℕ → ℕ → Memory
unfolding set_memory_safe
zero_memory m pointer len = (set_memory_safe m pointer 0 len len).1

pub set_memory : Memory → ℕ → ℕ → ℕ → ℕ × Memory
unfolding set_bytes
set_memory m src value len = if src == 0 then (0, m) else (src, set_bytes m src (value % 256) len)

unfoldable pub copy_memory : Memory → ℕ → ℕ → ℕ → ℤ × Memory
unfolding copy_bytes
copy_memory m src dst len =
    if src == 0 || dst == 0 then (negsuc 0, m) else (to_int32 len, copy_bytes m src dst len)

-- `rt_alloc_string`, for the buffer that the allocation gives.
unfoldable pub alloc_string : ℕ → Memory → ℕ → ℕ → Option (ℕ × Memory)
unfolding string_len set_memory copy_memory_safe
alloc_string fuel m src buffer = elim (string_len fuel m src 0) [
  | none ↦ none
  | some slen ↦
      (if buffer == 0
        then some (0, m)
        else (let (ret, copied) =
              copy_memory_safe (set_memory m buffer 0 slen).1 src buffer slen (slen + 1) in
            some (elim ret [
              | negsuc n ↦ (0, copied)
              | pos n ↦ (buffer, store8 copied (buffer + slen) 0)
            ])))
]

-- The tests on characters, which are signed numbers.
unfoldable pub to_uppercase : ℤ → ℤ
to_uppercase (negsuc n) = negsuc n
to_uppercase (pos ch) = if leb 97 ch && leb ch 122 then pos (ch - 32) else pos ch

unfoldable pub to_lower : ℤ → ℤ
to_lower (negsuc n) = negsuc n
to_lower (pos ch) = if leb 65 ch && leb ch 90 then pos (ch + 32) else pos ch

unfoldable pub is_alnum : ℤ → Bool
is_alnum (negsuc n) = false
is_alnum (pos ch) =
    (leb 97 ch && leb ch 122) || (leb 65 ch && leb ch 90) || (leb 48 ch && leb ch 57)

unfoldable pub is_space : ℤ → Bool
is_space (negsuc n) = false
is_space (pos ch) = ch == 32

unfoldable pub is_newln : ℤ → Bool
is_newln (negsuc n) = false
is_newln (pos ch) = ch == 10

-- The character of a digit below 16.
abbrev pub digit : ℕ → ℕ
digit d = if ltb d 10 then 48 + d else 55 + d

pub to_char : ℕ → ℕ → ℕ
to_char value base = digit (value % base)

-- The `do` loop of `rt_to_string`, which writes the digits from the lowest.
pub write_digits : ℕ → Memory → ℕ → ℕ → ℕ → ℕ → Option (ℕ × Memory)
unfolding to_char
write_digits zero m str value base i = none
write_digits (suc fuel) m str value base i =
    let written = store8 m (str + i) (to_char value base) in
    let rest = write_digits fuel written str (value / base) base (i + 1) in
    if value / base == 0 then some (i + 1, written) else rest

-- Its second loop, which swaps them in place: `n` steps from `j` on.
pub swap_digits : ℕ → Memory → ℕ → ℕ → ℕ → Memory
swap_digits zero m str i j = m
swap_digits (suc n) m str i j =
    let tmp = m (str + j) in
    let m' = store8 m (str + j) (m (str + (i - j - 1))) in
    swap_digits n (store8 m' (str + (i - j - 1)) tmp) str i (j + 1)

pub to_string : ℕ → Memory → ℕ → ℕ → ℕ → Option (Bool × Memory)
unfolding write_digits swap_digits
to_string fuel m str value base =
    if str == 0 || ltb base 2 || ltb 16 base
    then some (false, m)
    else elim (write_digits fuel m str value base 0) [
      | none ↦ none
      | some (i, written) ↦ some (true, swap_digits (i / 2) (store8 written (str + i) 0) str i 0)
    ]

-- The loop of `rt_string_in_string`: `n` places more, from `at` on.
pub find_from : Memory → ℕ → ℕ → ℕ → ℕ → ℕ
unfolding string_cmp
find_from m at needle needle_len zero = 0
find_from m at needle needle_len (suc n) =
    let rest = find_from m (at + 1) needle needle_len n in
    elim (string_cmp m at needle needle_len) [
      | pos zero ↦ at
      | pos (suc k) ↦ rest
      | negsuc k ↦ rest
    ]

pub string_in_string : ℕ → Memory → ℕ → ℕ → Option ℕ
unfolding string_len find_from
string_in_string fuel m haystack needle =
    if haystack == 0 || needle == 0 then some 0 else elim (string_len fuel m needle 0) [
      | none ↦ none
      | some needle_len ↦ elim (string_len fuel m haystack 0) [
        | none ↦ none
        | some hay_len ↦
            if ltb hay_len needle_len
            then some 0
            else some (find_from m haystack needle needle_len (hay_len - needle_len + 1))
      ]
    ]

-- `rt_string_has_char`.
pub has_char_loop : ℕ → Memory → ℕ → ℕ → Option ℕ
has_char_loop zero m str ch = none
has_char_loop (suc fuel) m str ch =
    let rest = has_char_loop fuel m (str + 1) ch in
    if not (char m str == 0) && not (char m str == ch)
    then rest
    else some (if char m str == ch then str else 0)

unfoldable pub string_has_char : ℕ → Memory → ℕ → ℕ → Option ℕ
unfolding has_char_loop
string_has_char fuel m str ch = if str == 0 then some 0 else has_char_loop fuel m str ch
