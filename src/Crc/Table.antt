-- ===== src/Crc/Table.antt =====
-- The table-driven loop of Crc32.cpp against the checksum computed a bit at a time.
use krnl.Base.{
  ℕ, zero, suc, ◌+◌, ◌*◌, ◌/◌, ◌%◌, ◌^◌, ◌<◌, ◌≡◌, ◌≢◌, refl, sym, ◌∙◌, ap, ap₂, arith, List, [],
  ◌∷◌, true, ◌==◌, ==→eq, get_or,
}
use krnl.Base.Memory.{Memory}
use krnl.Base.Bits.{
  bit_and, bit_xor, bit_xor-sum, bit_xor_fields, bit_and_mask, bit_xor-lt, all_below,
  all_below_sound, bit_xor-zero,
}
use krnl.Crc.{checksum_polys, char_word, crc_round, crc_loop, calculate_crc32}
use krnl.Crc.Bitwise.{
  shift_bit, shift_bits, bitwise_crc, shift_bits_linear, shift_bits-high, shift_bits-lt,
}

polys_table : all_below 256 (λ i. get_or checksum_polys i 0 == shift_bits 8 i) ≡ true
unfolding all_below checksum_polys shift_bits shift_bit
polys_table = refl

-- Each entry of the table is its index, shifted out bit by bit.
pub polys-shift_bits : (i : ℕ) → i < 256 → get_or checksum_polys i 0 ≡ shift_bits 8 i
polys-shift_bits i h =
    ==→eq _ _
      (all_below_sound (λ i. get_or checksum_polys i 0 == shift_bits 8 i) 256 i h polys_table)

-- The bytes at an address.
abbrev pub bytes_at : Memory → ℕ → ℕ → List ℕ
bytes_at m inp zero = []
bytes_at m inp (suc len) = m inp ∷ bytes_at m (inp + 1) len

char_word_parts : (c : ℕ) → c < 256 → char_word c ≡ char_word c / 2 ^ 8 * 2 ^ 8 + c
unfolding char_word
char_word_parts c h = ground arith

-- The byte that indexes the table.
index_of_round :
    (crc c : ℕ) → c < 256 → bit_and (bit_xor crc (char_word c)) 0xff ≡ bit_xor (crc % 256) c
index_of_round crc c h =
    let split : crc ≡ crc / 2 ^ 8 * 2 ^ 8 + crc % 256 = omega arith in
    let low : bit_xor (crc % 256) c < 2 ^ 8 =
      bit_xor-lt 8 (crc % 256) c (omega arith) (omega arith) in
    let fields =
      bit_xor_fields 8 (crc / 2 ^ 8) (crc % 256) (char_word c / 2 ^ 8) c (omega arith) h in
    let joined : bit_xor crc (char_word c)
        ≡ bit_xor (crc / 2 ^ 8) (char_word c / 2 ^ 8) * 2 ^ 8 + bit_xor (crc % 256) c =
      ap₂ bit_xor split (char_word_parts c h) ∙ fields in
    bit_and_mask 8 (bit_xor crc (char_word c)) ∙ omega (arith, joined)

-- A round of the loop shifts eight bits out.
crc_round-shift_bits : (crc c : ℕ) → c < 256 → crc_round crc c ≡ shift_bits 8 (bit_xor crc c)
unfolding crc_round
crc_round-shift_bits crc c h =
    ap (bit_xor (crc / 2 ^ 8)) (
      ap (λ i. get_or checksum_polys i 0) (index_of_round crc c h)
      ∙ polys-shift_bits (bit_xor (crc % 256) c) low)
    ∙ sym (
        ap (shift_bits 8) (whole ∙ sym (bit_xor-sum 8 (crc / 2 ^ 8) (bit_xor (crc % 256) c) low))
        ∙ shift_bits_linear 8 (crc / 2 ^ 8 * 2 ^ 8) (bit_xor (crc % 256) c)
        ∙ ap (λ x. bit_xor x (shift_bits 8 (bit_xor (crc % 256) c)))
            (shift_bits-high 8 (crc / 2 ^ 8)))
  where
    low : bit_xor (crc % 256) c < 256
    low = bit_xor-lt 8 (crc % 256) c (omega arith) (omega arith)

    split : crc ≡ crc / 2 ^ 8 * 2 ^ 8 + crc % 256
    split = omega arith

    alone : c ≡ 0 * 2 ^ 8 + c
    alone = omega arith

    whole : bit_xor crc c ≡ crc / 2 ^ 8 * 2 ^ 8 + bit_xor (crc % 256) c
    whole =
        ap₂ bit_xor split alone
        ∙ bit_xor_fields 8 (crc / 2 ^ 8) (crc % 256) 0 c (omega arith) h
        ∙ ap (λ x. x * 2 ^ 8 + bit_xor (crc % 256) c) (bit_xor-zero (crc / 2 ^ 8))

-- Every byte of a memory is a byte.
abbrev pub IsBytes : Memory → Type 0
IsBytes m = (a : ℕ) → m a < 256

pub crc_loop-bitwise_crc :
    (m : Memory) (inp len crc : ℕ)
    → IsBytes m
    → crc_loop m inp len crc ≡ bitwise_crc crc (bytes_at m inp len)
unfolding crc_loop bitwise_crc
crc_loop-bitwise_crc m inp zero crc bytes = refl
crc_loop-bitwise_crc m inp (suc len) crc bytes =
    ap (crc_loop m (inp + 1) len) (crc_round-shift_bits crc (m inp) (bytes inp))
    ∙ crc_loop-bitwise_crc m (inp + 1) len (shift_bits 8 (bit_xor crc (m inp))) bytes

pub bitwise_crc-lt :
    (m : Memory) (inp len crc : ℕ)
    → IsBytes m
    → crc < 2 ^ 32
    → bitwise_crc crc (bytes_at m inp len) < 2 ^ 32
unfolding bitwise_crc
bitwise_crc-lt m inp zero crc bytes h = h
bitwise_crc-lt m inp (suc len) crc bytes h =
    bitwise_crc-lt m (inp + 1) len _ bytes
      (shift_bits-lt 8 _ (bit_xor-lt 32 crc (m inp) h (omega (arith, bytes inp))))

-- For a buffer that is not null, `ke_calculate_crc32` is the complement, in 32 bits, of the checksum
-- computed bit by bit with the polynomial 0xedb88320 over the bytes of the buffer.
pub calculate_crc32-bitwise_crc :
    (m : Memory) (inp len : ℕ)
    → IsBytes m
    → inp ≢ 0
    → calculate_crc32 m inp len + bitwise_crc 0xffffffff (bytes_at m inp len) ≡ 0xffffffff
unfolding calculate_crc32
calculate_crc32-bitwise_crc m inp len bytes h = ground (
  arith,
  crc_loop-bitwise_crc m inp len 0xffffffff bytes,
  bitwise_crc-lt m inp len 0xffffffff bytes,
)
