-- ===== src/Pef/Blobs.antt =====
-- What a search reads: the bytes of the blob and no others.
use krnl.Base.{
  ℕ, zero, suc, ◌+◌, ◌*◌, ◌≤◌, ◌<◌, ◌≡◌, refl, sym, Bool, List, arith, ltb, Bool-cases,
  Option-cases, inl, inr,
}
use krnl.Base.Memory.{Memory}
use krnl.Base.Words.{load_bytes_cong}
use krnl.Pef.Container.{
  container_at, header_at, bytes_from, pef_magic_eq, pef_magic_fat, pef_read_container, find_header,
  pef_find_section, container_size, header_size,
}
use krnl.Pef.Bounds.{container_fits}

-- Two memories with the same bytes in a range.
abbrev pub Agree : Memory → Memory → ℕ → ℕ → Type 0
Agree m m' a n = (b : ℕ) → a ≤ b → b < a + n → m b ≡ m' b

bytes_from_cong : (m m' : Memory) (a n : ℕ) → Agree m m' a n → bytes_from m a n ≡ bytes_from m' a n
unfolding bytes_from
bytes_from_cong m m' a zero h = refl
bytes_from_cong m m' a (suc n) h = cc (
  h a (omega arith) (omega arith),
  bytes_from_cong m m' (a + 1) n (λ b p q. h b (omega arith) (omega arith)),
)

container_cong : (m m' : Memory) (a : ℕ) → Agree m m' a 57 → container_at m a ≡ container_at m' a
unfolding container_at
container_cong m m' a h = cc (
  bytes_from_cong m m' a 5 (λ b p q. h b (omega arith) (omega arith)),
  load_bytes_cong m m' (a + 5) 4 (λ b p q. h b (omega arith) (omega arith)),
  load_bytes_cong m m' (a + 9) 4 (λ b p q. h b (omega arith) (omega arith)),
  load_bytes_cong m m' (a + 13) 4 (λ b p q. h b (omega arith) (omega arith)),
  load_bytes_cong m m' (a + 17) 4 (λ b p q. h b (omega arith) (omega arith)),
  load_bytes_cong m m' (a + 21) 4 (λ b p q. h b (omega arith) (omega arith)),
  load_bytes_cong m m' (a + 25) 4 (λ b p q. h b (omega arith) (omega arith)),
  load_bytes_cong m m' (a + 29) 8 (λ b p q. h b (omega arith) (omega arith)),
  load_bytes_cong m m' (a + 37) 8 (λ b p q. h b (omega arith) (omega arith)),
  load_bytes_cong m m' (a + 45) 8 (λ b p q. h b (omega arith) (omega arith)),
  load_bytes_cong m m' (a + 53) 4 (λ b p q. h b (omega arith) (omega arith)),
)

header_cong : (m m' : Memory) (a : ℕ) → Agree m m' a 302 → header_at m a ≡ header_at m' a
unfolding header_at
header_cong m m' a h = cc (
  bytes_from_cong m m' a 256 (λ b p q. h b (omega arith) (omega arith)),
  load_bytes_cong m m' (a + 256) 4 (λ b p q. h b (omega arith) (omega arith)),
  load_bytes_cong m m' (a + 260) 4 (λ b p q. h b (omega arith) (omega arith)),
  load_bytes_cong m m' (a + 264) 4 (λ b p q. h b (omega arith) (omega arith)),
  load_bytes_cong m m' (a + 268) 2 (λ b p q. h b (omega arith) (omega arith)),
  load_bytes_cong m m' (a + 270) 8 (λ b p q. h b (omega arith) (omega arith)),
  load_bytes_cong m m' (a + 278) 8 (λ b p q. h b (omega arith) (omega arith)),
  load_bytes_cong m m' (a + 286) 8 (λ b p q. h b (omega arith) (omega arith)),
  load_bytes_cong m m' (a + 294) 8 (λ b p q. h b (omega arith) (omega arith)),
)

find_header_cong :
    (m m' : Memory) (blob len : ℕ) (name : List ℕ) (kind : ℕ) (is_fat : Bool)
    (table_sz remaining i : ℕ)
    → container_size + (i + remaining) * header_size ≤ len
    → Agree m m' blob len
    → find_header m blob len name kind is_fat table_sz remaining i
      ≡ find_header m' blob len name kind is_fat table_sz remaining i
unfolding find_header
find_header_cong m m' blob len name kind is_fat table_sz zero i inside h = refl
find_header_cong m m' blob len name kind is_fat table_sz (suc remaining) i inside h =
    rw
      (
        find_header,
        header_cong m m' (blob + container_size + i * header_size)
            (λ b p q. h b (omega arith) (omega (arith, inside))),
        find_header_cong m m' blob len name kind is_fat table_sz remaining (i + 1)
            (omega (arith, inside)) h,
      )
      refl

read_container_cong :
    (m m' : Memory) (blob len : ℕ)
    → Agree m m' blob len
    → pef_read_container m blob len ≡ pef_read_container m' blob len
unfolding pef_read_container
read_container_cong m m' blob len h = elim (Bool-cases (ltb len container_size)) [
  | inl short ↦ rw (pef_read_container, short) refl
  | inr long ↦
      (let same = container_cong m m' blob (λ b p q. h b p (ground (arith, long, q))) in
        rw (pef_read_container, same) refl)
]

-- The search for a section reads nothing outside its blob: memories that agree on the blob's `len` bytes
-- give the same answer, whatever the container says of the number of its headers.
pub pef_find_section_inside :
    (m m' : Memory) (blob len : ℕ) (name : List ℕ) (kind : ℕ)
    → Agree m m' blob len
    → pef_find_section m blob len name kind ≡ pef_find_section m' blob len name kind
unfolding pef_find_section
pef_find_section_inside m m' blob len name kind h =
    elim (Option-cases (pef_read_container m blob len)) [
      | inl gone ↦ rw (pef_find_section, sym (read_container_cong m m' blob len h), gone) refl
      | inr (out, there) ↦
          (let (same, low, high, fits) = container_fits m blob len out there in
            rw
              (
                pef_find_section,
                sym (read_container_cong m m' blob len h),
                there,
                find_header_cong m m' blob len name kind (pef_magic_eq out.magic pef_magic_fat)
                    (out.count * header_size) out.count 0 (omega (arith, fits)) h,
              )
              refl)
    ]
