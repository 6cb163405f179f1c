-- ===== src/Crc/Bitwise.antt =====
-- The CRC-32 computed a bit at a time, with no table: the reflected polynomial 0xedb88320.
use krnl.Base.{
  ℕ, zero, suc, ◌+◌, ◌*◌, ◌/◌, ◌%◌, ◌^◌, ◌<◌, ◌≡◌, refl, sym, ◌∙◌, ap, arith, List, [], ◌∷◌, ◌==◌,
  if◌then◌else◌,
}
use krnl.Base.Bits.{
  bit_xor, bit_xor-half, bit_xor-low, bit_xor_assoc, bit_xor_comm, bit_xor-zero, bit_xor-lt,
  two_pow_suc,
}

abbrev polynomial : ℕ
polynomial = 0xedb88320

carry : ℕ → ℕ
carry d = if d == 0 then 0 else polynomial

-- One bit shifted out: a low bit of one brings the polynomial in.
unfoldable pub shift_bit : ℕ → ℕ
unfolding carry
shift_bit c = bit_xor (c / 2) (carry (c % 2))

unfoldable pub shift_bits : ℕ → ℕ → ℕ
shift_bits zero c = c
shift_bits (suc n) c = shift_bits n (shift_bit c)

-- The checksum of a list of bytes, before the final complement.
unfoldable pub bitwise_crc : ℕ → List ℕ → ℕ
bitwise_crc crc [] = crc
bitwise_crc crc (c ∷ cs) = bitwise_crc (shift_bits 8 (bit_xor crc c)) cs

xor_swap : (a b c d : ℕ) → bit_xor (bit_xor a b) (bit_xor c d) ≡ bit_xor (bit_xor a c) (bit_xor b d)
xor_swap a b c d =
    bit_xor_assoc a b (bit_xor c d)
    ∙ ap (bit_xor a)
        (sym (bit_xor_assoc b c d) ∙ ap (λ x. bit_xor x d) (bit_xor_comm b c) ∙ bit_xor_assoc c b d)
    ∙ sym (bit_xor_assoc a c (bit_xor b d))

carry_linear : (x y : ℕ) → x < 2 → y < 2 → carry ((x + y) % 2) ≡ bit_xor (carry x) (carry y)
unfolding carry
carry_linear zero zero p q = refl
carry_linear zero (suc zero) p q = refl
carry_linear (suc zero) zero p q = refl
carry_linear (suc zero) (suc zero) p q = refl
carry_linear zero (suc (suc y)) p q = absurd (omega arith)
carry_linear (suc zero) (suc (suc y)) p q = absurd (omega arith)
carry_linear (suc (suc x)) y p q = absurd (omega arith)

-- Shifting is linear.
shift_bit_linear : (a b : ℕ) → shift_bit (bit_xor a b) ≡ bit_xor (shift_bit a) (shift_bit b)
unfolding shift_bit
shift_bit_linear a b =
    rw (bit_xor-half a b, bit_xor-low a b, carry_linear (a % 2) (b % 2) (omega arith) (omega arith))
      (xor_swap (a / 2) (b / 2) (carry (a % 2)) (carry (b % 2)))

pub shift_bits_linear :
    (n a b : ℕ) → shift_bits n (bit_xor a b) ≡ bit_xor (shift_bits n a) (shift_bits n b)
unfolding shift_bits
shift_bits_linear zero a b = refl
shift_bits_linear (suc n) a b =
    rw (shift_bit_linear a b) (shift_bits_linear n (shift_bit a) (shift_bit b))

shift_bit-double : (q : ℕ) → shift_bit (2 * q) ≡ q
unfolding shift_bit carry
shift_bit-double q =
    let even : (2 * q) % 2 ≡ 0 = omega arith in
    let half : (2 * q) / 2 ≡ q = omega arith in rw (even, half) (bit_xor-zero q)

-- High bits reach the bottom unchanged.
pub shift_bits-high : (n q : ℕ) → shift_bits n (q * 2 ^ n) ≡ q
unfolding shift_bits
shift_bits-high zero q = omega arith
shift_bits-high (suc n) q = rw (two_pow_suc q n, shift_bit-double (q * 2 ^ n)) (shift_bits-high n q)

pub shift_bit-lt : (c : ℕ) → c < 2 ^ 32 → shift_bit c < 2 ^ 32
unfolding shift_bit carry
shift_bit-lt c h = bit_xor-lt 32 (c / 2) (carry (c % 2)) (omega arith) (ground arith)

pub shift_bits-lt : (n c : ℕ) → c < 2 ^ 32 → shift_bits n c < 2 ^ 32
unfolding shift_bits
shift_bits-lt zero c h = h
shift_bits-lt (suc n) c h = shift_bits-lt n (shift_bit c) (shift_bit-lt c h)
