-- ===== src/Heap/Header.antt =====
-- What the writes into a heap header leave in it, and around it.
use krnl.Base.{ℕ, ◌+◌, ◌^◌, ◌≤◌, ◌<◌, ◌≡◌, ◌⊎◌, ◌∙◌, Bool, true, false, arith}
use krnl.Base.Memory.{Memory, fill}
use krnl.Base.Words.{
  load_bytes, store_bytes, load_bytes_cong, store_bytes_outside, load_bytes-store_bytes_self,
}
use krnl.Heap.{
  heap_magic, info_bytes, magic_of, present_of, put_present, put_write_read, put_user, put_page,
  write_header, clear_header,
}

-- Nothing outside the header is written.
pub write_header_outside :
    (m : Memory) (h sz : ℕ) (wr user : Bool) (pad b : ℕ)
    → (b + 1 ≤ h) ⊎ (h + info_bytes ≤ b)
    → write_header m h sz wr user pad b ≡ m b
unfolding write_header
write_header_outside m h sz wr user pad b away =
    let m1 : Memory = store_bytes m (h + 10) 8 sz in
    let m2 : Memory = store_bytes m1 h 3 heap_magic in
    let m3 : Memory = store_bytes m2 (h + 4) 4 0 in
    let m4 : Memory = store_bytes m3 (h + 18) 8 (h + info_bytes) in
    let m8 : Memory =
      put_present (put_user (put_write_read (put_page m4 h false) h wr) h user) h true in
    ground (
      arith,
      store_bytes_outside m8 (h + 26) 4 pad b,
      store_bytes_outside m3 (h + 18) 8 (h + info_bytes) b,
      store_bytes_outside m2 (h + 4) 4 0 b,
      store_bytes_outside m1 h 3 heap_magic b,
      store_bytes_outside m (h + 10) 8 sz b,
    )

pub clear_header_outside :
    (m : Memory) (h b : ℕ) → (b + 1 ≤ h) ⊎ (h + info_bytes ≤ b) → clear_header m h b ≡ m b
unfolding clear_header
clear_header_outside m h b away =
    let m1 : Memory = store_bytes m (h + 10) 8 0 in
    let m2 : Memory = put_present m1 h false in
    let m3 : Memory = store_bytes m2 (h + 18) 8 0 in
    let m4 : Memory = store_bytes m3 (h + 4) 4 0 in
    let m6 : Memory = put_user (put_write_read m4 h false) h false in
    ground (
      arith,
      store_bytes_outside m6 (h + 26) 4 0 b,
      store_bytes_outside m3 (h + 4) 4 0 b,
      store_bytes_outside m2 (h + 18) 8 0 b,
      store_bytes_outside m (h + 10) 8 0 b,
    )

-- Clearing leaves the magic: its three bytes are not among those written.
clear_header_low : (m : Memory) (h b : ℕ) → h ≤ b → b < h + 3 → clear_header m h b ≡ m b
unfolding clear_header
clear_header_low m h b low high =
    let m1 : Memory = store_bytes m (h + 10) 8 0 in
    let m2 : Memory = put_present m1 h false in
    let m3 : Memory = store_bytes m2 (h + 18) 8 0 in
    let m4 : Memory = store_bytes m3 (h + 4) 4 0 in
    let m6 : Memory = put_user (put_write_read m4 h false) h false in
    ground (
      arith,
      store_bytes_outside m6 (h + 26) 4 0 b,
      store_bytes_outside m3 (h + 4) 4 0 b,
      store_bytes_outside m2 (h + 18) 8 0 b,
      store_bytes_outside m (h + 10) 8 0 b,
    )

pub clear_header-magic : (m : Memory) (h : ℕ) → magic_of (clear_header m h) h ≡ magic_of m h
clear_header-magic m h = load_bytes_cong (clear_header m h) m h 3 (clear_header_low m h)

pub clear_header-present : (m : Memory) (h : ℕ) → present_of (clear_header m h) h ≡ false
unfolding clear_header
clear_header-present m h =
    let m1 : Memory = store_bytes m (h + 10) 8 0 in
    let m2 : Memory = put_present m1 h false in
    let m3 : Memory = store_bytes m2 (h + 18) 8 0 in
    let m4 : Memory = store_bytes m3 (h + 4) 4 0 in
    let m6 : Memory = put_user (put_write_read m4 h false) h false in
    ground (
      arith,
      store_bytes_outside m6 (h + 26) 4 0 (h + 3),
      store_bytes_outside m3 (h + 4) 4 0 (h + 3),
      store_bytes_outside m2 (h + 18) 8 0 (h + 3),
    )

-- The offset that `mm_alloc_ptr` reads back.
pub write_header-offset :
    (m : Memory) (h sz : ℕ) (wr user : Bool) (pad : ℕ)
    → h + info_bytes < 2 ^ 64
    → load_bytes (write_header m h sz wr user pad) (h + 18) 8 ≡ h + info_bytes
unfolding write_header
write_header-offset m h sz wr user pad fits =
    let m3 : Memory =
      store_bytes (store_bytes (store_bytes m (h + 10) 8 sz) h 3 heap_magic) (h + 4) 4 0 in
    let m4 : Memory = store_bytes m3 (h + 18) 8 (h + info_bytes) in
    let m8 : Memory =
      put_present (put_user (put_write_read (put_page m4 h false) h wr) h user) h true in
    let m9 : Memory = store_bytes m8 (h + 26) 4 pad in
    load_bytes_cong (fill m9 (h + 30) 0 4) m4 (h + 18) 8
      (λ b low high. ground (arith, store_bytes_outside m8 (h + 26) 4 pad b))
    ∙ load_bytes-store_bytes_self m3 (h + 18) 8 (h + info_bytes) fits
