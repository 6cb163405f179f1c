-- ===== src/Ascii/Digits.antt =====
-- The numbers that `rt_to_string` writes.
use native.Mathlib.Nat.{mod-add-div', div-lt_iff_lt-mul, mul-le-mul_left, mod-lt, pow-suc}
use krnl.Base.{
  ℕ, zero, suc, ◌+◌, ◌-◌, ◌*◌, ◌/◌, ◌%◌, ◌^◌, ◌≤◌, ◌<◌, ◌≡◌, ◌≢◌, ◌⊎◌, inl, inr, refl, sym, ap, ap₂,
  ◌∙◌, true, arith, ltb, ◌==◌, if◌then◌else◌, some, subst, Bool-cases,
}
use krnl.Base.Memory.{Memory, store8}
use krnl.Ascii.{digit, to_char, write_digits, swap_digits, to_string}
use krnl.Ascii.Reverse.{swap_digits_outside, reversed}
use krnl.Ascii.Text.{IsString}

-- The value of a digit's character.
pub digit_value : ℕ → ℕ
digit_value c = if ltb c 58 then c - 48 else c - 55

-- The number that `n` characters from `p` on stand for, highest digit first, after `acc`.
pub parse : Memory → ℕ → ℕ → ℕ → ℕ → ℕ
parse m p base zero acc = acc
parse m p base (suc n) acc = parse m (p + 1) base n (acc * base + digit_value (m p))

-- The same with the lowest digit first, by recursion from either end.
read_low : Memory → ℕ → ℕ → ℕ → ℕ → ℕ
read_low w str base i zero = 0
read_low w str base i (suc c) = read_low w str base (i + 1) c * base + digit_value (w (str + i))

read_high : Memory → ℕ → ℕ → ℕ → ℕ → ℕ
read_high w str base zero acc = acc
read_high w str base (suc n) acc = read_high w str base n (acc * base + digit_value (w (str + n)))

read_high-read_low :
    (w : Memory) (str base n c t : ℕ)
    → n + c ≡ t
    → read_high w str base n (read_low w str base n c) ≡ read_low w str base 0 t
unfolding read_high read_low
read_high-read_low w str base zero c t e = ap (read_low w str base 0) (omega (arith, e))
read_high-read_low w str base (suc n) c t e =
    ap (λ l. read_high w str base n (read_low w str base l c * base + digit_value (w (str + n))))
      (plus_one n)
    ∙ read_high-read_low w str base n (suc c) t (omega arith)
  where
    plus_one : (x : ℕ) → suc x ≡ x + 1
    plus_one x = omega arith

parse-read_high :
    (m w : Memory) (p str base n acc : ℕ)
    → ((k : ℕ) → k < n → m (p + k) ≡ w (str + (n - 1 - k)))
    → parse m p base n acc ≡ read_high w str base n acc
unfolding parse read_high
parse-read_high m w p str base zero acc h = refl
parse-read_high m w p str base (suc n) acc h =
    parse-read_high m w (p + 1) str base n (acc * base + digit_value (m p)) (λ k f. later k f)
    ∙ ap (λ c. read_high w str base n (acc * base + digit_value c)) (now)
  where
    at_zero : (x y : ℕ) → (x + 0 ≡ x) × (y + (suc n - 1 - 0) ≡ y + n)
    at_zero x y = (omega arith, omega arith)

    now : m p ≡ w (str + n)
    now = ap m (sym ((at_zero p str).0)) ∙ h 0 (omega arith) ∙ ap w ((at_zero p str).1)

    at_next : (x y k : ℕ) → (x + 1 + k ≡ x + suc k) × (y + (suc n - 1 - suc k) ≡ y + (n - 1 - k))
    at_next x y k = (omega arith, omega arith)

    later : (k : ℕ) → k < n → m (p + 1 + k) ≡ w (str + (n - 1 - k))
    later k f = ap m ((at_next p str k).0) ∙ h (suc k) (omega arith) ∙ ap w ((at_next p str k).1)

digit_value-digit : (d : ℕ) → d < 16 → digit_value (digit d) ≡ d
unfolding digit_value
digit_value-digit d h = ground arith

-- What the first loop leaves: digits for the value from `i` up to `j`, and nothing else.
record Written (m : Memory) (str base value i j : ℕ) (w : Memory) : Type 0 where
  some_digit : i < j
  reads : read_low w str base i (j - i) ≡ value
  digits : (a : ℕ) → str + i ≤ a → a < str + j → (0 < w a) × (w a < 256)
  others : (a : ℕ) → (a < str + i) ⊎ (str + j ≤ a) → w a ≡ m a

digit-bounds : (d : ℕ) → d < 16 → (0 < digit d) × (digit d < 256)
digit-bounds d h = (ground arith, ground arith)

read_low-one :
    (w : Memory) (str base i j d : ℕ)
    → j ≡ i + 1
    → w (str + i) ≡ digit d
    → d < 16
    → read_low w str base i (j - i) ≡ d
unfolding read_low
read_low-one w str base i j d e f h =
    ap (read_low w str base i) (one i j e)
    ∙ no_more (digit_value (w (str + i)))
    ∙ ap digit_value f
    ∙ digit_value-digit d h
  where
    no_more : (x : ℕ) → 0 * base + x ≡ x
    no_more x = omega arith

    one : (x y : ℕ) → y ≡ x + 1 → y - x ≡ 1
    one x y e = omega arith

stored : (m : Memory) (a v : ℕ) → store8 m a v a ≡ v
stored m a v = ground arith

only_digit : (value base : ℕ) → value / base ≡ 0 → value % base ≡ value
only_digit value base e = omega (arith, mod-add-div' value base, ap (λ q. q * base) e)

last-Written :
    (m : Memory) (str value base i : ℕ)
    → 1 < base
    → base ≤ 16
    → value / base ≡ 0
    → Written m str base value i (i + 1) (store8 m (str + i) (to_char value base))
unfolding to_char
last-Written m str value base i lo hi e =
    let below = mod-lt value {m = base} (omega arith) in
    let small = only_digit value base e in
    let here = stored m (str + i) (digit (value % base)) in
    let bounds = digit-bounds (value % base) (omega arith) in
    record {
      some_digit = omega arith;
      reads =
          read_low-one (store8 m (str + i) (digit (value % base))) str base i (i + 1) (value % base)
            refl here (omega arith)
          ∙ small;
      digits = λ a low high.
          subst (λ x. (0 < x) × (x < 256))
            (sym (
              ap (store8 m (str + i) (digit (value % base))) (at_end a (str + i) low (omega arith))
              ∙ here))
            bounds;
      others = λ a h. ground arith;
    }
  where
    at_end : (a b : ℕ) → b ≤ a → a < b + 1 → a ≡ b
    at_end a b h k = omega arith

step-Written :
    (m : Memory) (str value base i j : ℕ) (w : Memory)
    → 1 < base
    → base ≤ 16
    → Written (store8 m (str + i) (to_char value base)) str base (value / base) (i + 1) j w
    → Written m str base value i j w
unfolding to_char read_low
step-Written m str value base i j w lo hi r =
    let below = mod-lt value {m = base} (omega arith) in
    let some_digit = r.some_digit in
    let here = r.others (str + i) (inl (omega arith)) ∙ stored m (str + i) (digit (value % base)) in
    let bounds = digit-bounds (value % base) (omega arith) in
    record {
      some_digit = omega arith;
      reads =
          ap (read_low w str base i) (one_more i j r.some_digit)
          ∙ ap₂ (λ x y. x * base + y) r.reads
              (ap digit_value here ∙ digit_value-digit (value % base) (omega arith))
          ∙ (commute (value / base * base) (value % base) ∙ mod-add-div' value base);
      digits = λ a low high. elim (split a (str + i) low) [
        | inl e ↦ subst (λ x. (0 < x) × (x < 256)) (sym (ap w e ∙ here)) bounds
        | inr f ↦ r.digits a (omega arith) high
      ];
      others = λ a h. r.others a (omega arith) ∙ ground (arith, some_digit);
    }
  where
    one_more : (x y : ℕ) → x + 1 < y → y - x ≡ suc (y - (x + 1))
    one_more x y h = omega arith

    commute : (x y : ℕ) → x + y ≡ y + x
    commute x y = omega arith

    split : (a b : ℕ) → b ≤ a → (a ≡ b) ⊎ (b + 1 ≤ a)
    split a b h = omega arith

quotient-lt : (value base fuel : ℕ) → 1 < base → value < 2 ^ suc fuel → value / base < 2 ^ fuel
quotient-lt value base fuel lo h =
    let double = pow-suc 2 fuel in
    let more = mul-le-mul_left {m = 2} {n = base} (2 ^ fuel) (omega arith) in
    (div-lt_iff_lt-mul {k = base} {x = value} {y = 2 ^ fuel} (omega arith)).1 (omega arith)

write_digits-Written :
    (fuel : ℕ) (m : Memory) (str value base i : ℕ)
    → 1 < base
    → base ≤ 16
    → value < 2 ^ fuel
    → (j : ℕ) × (w : Memory) × (write_digits (suc fuel) m str value base i ≡ some (j, w))
      × Written m str base value i j w
unfolding write_digits to_char
write_digits-Written zero m str value base i lo hi h = (
  i + 1,
  store8 m (str + i) (to_char value base),
  ground (arith, no_more value h),
  last-Written m str value base i lo hi (no_more value h),
)
  where
    no_more : (x : ℕ) → x < 2 ^ 0 → x / base ≡ 0
    no_more x h =
        let below = (div-lt_iff_lt-mul {k = base} {x = x} {y = 1} (omega arith)).1 (omega arith) in
        omega arith
write_digits-Written (suc fuel) m str value base i lo hi h = elim (Bool-cases (value / base == 0)) [
  | inl e ↦ (
    i + 1,
    store8 m (str + i) (to_char value base),
    ground arith,
    last-Written m str value base i lo hi (ground arith),
  )
  | inr e ↦
      (let (j, w, run, r) =
          write_digits-Written fuel (store8 m (str + i) (to_char value base)) str (value / base)
            base (i + 1) lo hi (quotient-lt value base fuel lo h) in
        (j, w, ground (arith, run), step-Written m str value base i j w lo hi r))
]

reversed-IsString :
    (m w : Memory) (str base value n : ℕ) (m' : Memory)
    → Written m str base value 0 n w
    → ((k : ℕ) → k < n → m' (str + k) ≡ w (str + (n - 1 - k)))
    → m' (str + n) ≡ 0
    → IsString m' str n
reversed-IsString m w str base value n m' r h e = record {
  filled = λ i k f.
      let (above_zero, in_byte) = r.digits (str + (n - 1 - i)) (omega arith) (omega arith) in
      omega (arith, h i k, f);
  ends = omega (arith, e);
}

read_high-Written :
    (m w : Memory) (str base value n : ℕ)
    → Written m str base value 0 n w
    → read_high w str base n 0 ≡ value
unfolding read_low
read_high-Written m w str base value n r =
    read_high-read_low w str base n 0 n (omega arith)
    ∙ ap (read_low w str base 0) (whole n)
    ∙ r.reads
  where
    whole : (x : ℕ) → x ≡ x - 0
    whole x = omega arith

-- A value that fits the fuel in bits is written in any base from 2 to 16 as a string, which reads back
-- as the value; nothing outside the string and its zero byte changes.
pub to_string-parse :
    (fuel : ℕ) (m : Memory) (str value base : ℕ)
    → str ≢ 0
    → 1 < base
    → base ≤ 16
    → value < 2 ^ fuel
    → (n : ℕ) × (m' : Memory) × (to_string (suc fuel) m str value base ≡ some (true, m'))
      × IsString m' str n
      × (parse m' str base n 0 ≡ value)
      × ((a : ℕ) → (a < str) ⊎ (str + n < a) → m' a ≡ m a)
unfolding to_string
to_string-parse fuel m str value base s lo hi h =
    let (n, w, run, r) = write_digits-Written fuel m str value base 0 lo hi h in
    let m' = swap_digits (n / 2) (store8 w (str + n) 0) str n 0 in
    (
      n,
      m',
      ground (arith, run),
      reversed-IsString m w str base value n m' r (reversed w str n) (
          swap_digits_outside (n / 2) (store8 w (str + n) 0) str n 0 (str + n) (omega arith)
            (inr (omega arith))
          ∙ stored w (str + n) 0),
      parse-read_high m' w str str base n 0 (reversed w str n)
          ∙ read_high-Written m w str base value n r,
      λ a o.
          swap_digits_outside (n / 2) (store8 w (str + n) 0) str n 0 a (omega arith) (omega arith)
          ∙ ground (arith, r.others a (omega arith)),
    )
