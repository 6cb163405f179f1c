-- ===== src/Pe/Sections.antt =====
-- The sections that the copying loop has passed.
use krnl.Base.{
  ℕ, zero, suc, ◌+◌, ◌*◌, ◌≤◌, ◌<◌, ◌≡◌, ◌≢◌, inl, inr, refl, sym, ap, subst, ◌∙◌, true, false,
  arith, ltb, ◌==◌, Bool-cases,
}
use krnl.Base.Words.{load_bytes_cong}
use krnl.Base.Memory.{Memory}
use krnl.Pef.Blobs.{Agree}
use krnl.Pe.Headers.{
  ExecHeader, OptionalHeader, exec_header_at, optional_header_at, section_header_at,
  section_header_size,
}
use krnl.Pe.Image.{section_fits, copy_section, copy_sections}
use krnl.Pe.Window.{Fits, Outside, copy_section-Outside, section_fits-Fits, optional_header_cong}

pub exec_header_cong :
    (m m' : Memory) (a : ℕ) → Agree m m' a 24 → exec_header_at m a ≡ exec_header_at m' a
unfolding exec_header_at
exec_header_cong m m' a h = cc (
  load_bytes_cong m m' a 4 (λ b p q. h b (omega arith) (omega arith)),
  load_bytes_cong m m' (a + 4) 2 (λ b p q. h b (omega arith) (omega arith)),
  load_bytes_cong m m' (a + 6) 2 (λ b p q. h b (omega arith) (omega arith)),
  load_bytes_cong m m' (a + 20) 2 (λ b p q. h b (omega arith) (omega arith)),
)

pub section_header_cong :
    (m m' : Memory) (a : ℕ) → Agree m m' a 40 → section_header_at m a ≡ section_header_at m' a
unfolding section_header_at
section_header_cong m m' a h = cc (
  load_bytes_cong m m' (a + 12) 4 (λ b p q. h b (omega arith) (omega arith)),
  load_bytes_cong m m' (a + 16) 4 (λ b p q. h b (omega arith) (omega arith)),
  load_bytes_cong m m' (a + 20) 4 (λ b p q. h b (omega arith) (omega arith)),
)

-- The blob lies outside the image, and holds the headers and the table of sections.
pub record Apart (opt : OptionalHeader) (blob blob_sz header_ptr opt_ptr sect count : ℕ)
    : Type 0 where
  pub there : blob ≢ 0
  pub exec_low : blob ≤ header_ptr
  pub exec_high : header_ptr + 24 ≤ blob + blob_sz
  pub opt_low : blob ≤ opt_ptr
  pub opt_high : opt_ptr + 96 ≤ blob + blob_sz
  pub table_low : blob ≤ sect
  pub table_high : sect + count * section_header_size ≤ blob + blob_sz
  pub blob_out : (c : ℕ) → blob ≤ c → c < blob + blob_sz → Outside opt c

-- The loop at a section: past the last, without content, with content that does not fit or does.
data Step (m : Memory) (blob blob_sz header_ptr opt_ptr sect fuel i : ℕ) : Type 0 where
  past :
      (exec_header_at m header_ptr).number_of_sections ≤ i
      → Step m blob blob_sz header_ptr opt_ptr sect fuel i
  skipped :
      (section_header_at m (sect + i * section_header_size)).size_of_raw_data ≡ 0
      → copy_sections m blob blob_sz header_ptr opt_ptr sect (suc fuel) i
        ≡ copy_sections m blob blob_sz header_ptr opt_ptr sect fuel (i + 1)
      → Step m blob blob_sz header_ptr opt_ptr sect fuel i
  refused :
      copy_sections m blob blob_sz header_ptr opt_ptr sect (suc fuel) i ≡ (false, m)
      → Step m blob blob_sz header_ptr opt_ptr sect fuel i
  copied :
      section_fits
          (optional_header_at m opt_ptr)
          blob_sz
          (section_header_at m (sect + i * section_header_size))
        ≡ true
      → copy_sections m blob blob_sz header_ptr opt_ptr sect (suc fuel) i
        ≡ copy_sections
            (copy_section m blob
              (optional_header_at m opt_ptr)
              (section_header_at m (sect + i * section_header_size)))
            blob
            blob_sz
            header_ptr
            opt_ptr
            sect
            fuel
            (i + 1)
      → Step m blob blob_sz header_ptr opt_ptr sect fuel i

copy_sections-Step :
    (m : Memory) (blob blob_sz header_ptr opt_ptr sect fuel i : ℕ)
    → Step m blob blob_sz header_ptr opt_ptr sect fuel i
unfolding copy_sections
copy_sections-Step m blob blob_sz header_ptr opt_ptr sect fuel i =
    let sec = section_header_at m (sect + i * section_header_size) in
    elim (Bool-cases (ltb i (exec_header_at m header_ptr).number_of_sections)) [
      | inr over ↦ past (ground (arith, over))
      | inl here ↦ elim (Bool-cases (sec.size_of_raw_data == 0)) [
        | inl none_left ↦
            skipped (ground (arith, none_left)) (rw (copy_sections, here, none_left) refl)
        | inr some_left ↦
            elim (Bool-cases (section_fits (optional_header_at m opt_ptr) blob_sz sec)) [
              | inr bad ↦ refused (rw (copy_sections, here, some_left, bad) refl)
              | inl good ↦ copied good (rw (copy_sections, here, some_left, good) refl)
            ]
      ]
    ]

-- Loops that answer yes have tested every section with content.
pub copy_sections-Fits :
    (m : Memory) (blob blob_sz header_ptr opt_ptr sect fuel i : ℕ) (header : ExecHeader)
    (opt : OptionalHeader) (j : ℕ)
    → Apart opt blob blob_sz header_ptr opt_ptr sect header.number_of_sections
    → exec_header_at m header_ptr ≡ header
    → optional_header_at m opt_ptr ≡ opt
    → (copy_sections m blob blob_sz header_ptr opt_ptr sect fuel i).0 ≡ true
    → header.number_of_sections ≤ fuel + i
    → i ≤ j
    → j < header.number_of_sections
    → (section_header_at m (sect + j * section_header_size)).size_of_raw_data ≢ 0
    → Fits opt blob_sz (section_header_at m (sect + j * section_header_size))
copy_sections-Fits m blob blob_sz header_ptr opt_ptr sect zero i header opt j apart eh eo ok enough
      low high full =
    absurd (omega (arith, enough, low, high))
copy_sections-Fits m blob blob_sz header_ptr opt_ptr sect (suc fuel) i header opt j apart eh eo ok
      enough low high full =
    let sec = section_header_at m (sect + i * section_header_size) in
    let own = optional_header_at m opt_ptr in
    elim (copy_sections-Step m blob blob_sz header_ptr opt_ptr sect fuel i) [
      | past over ↦
          let count = ap (λ h. h.number_of_sections) eh in
          absurd (omega (arith, over, count, low, high))
      | refused bad ↦ absurd (ground (arith, ok, ap (λ r. r.0) bad))
      | skipped empty step ↦ elim (Bool-cases (i == j)) [
        | inl here ↦
            let same : i ≡ j = ground (arith, here) in
            absurd (
              full (
                ap (λ k. (section_header_at m (sect + k * section_header_size)).size_of_raw_data)
                  (sym same)
                ∙ empty))
        | inr before ↦
            copy_sections-Fits m blob blob_sz header_ptr opt_ptr sect fuel (i + 1) header opt j
              apart eh eo (sym (ap (λ r. r.0) step) ∙ ok) (omega arith)
              (ground (arith, before, low)) high full
      ]
      | copied good step ↦
          let m' = copy_section m blob own sec in
          let kept : Agree m' m blob blob_sz = λ c p q.
            copy_section-Outside m blob blob_sz own sec c (section_fits-Fits own blob_sz sec good)
              apart.there (subst (λ o. Outside o c) (sym eo) (apart.blob_out c p q)) in
          let inside = section_header_cong m' m (sect + j * section_header_size) λ c p q.
            kept c (omega (arith, apart.table_low, p)) (omega (arith, apart.table_high, q, high)) in
          let eh' = exec_header_cong m' m header_ptr λ c p q.
            kept c (omega (arith, apart.exec_low, p)) (omega (arith, apart.exec_high, q)) in
          let eo' =
            optional_header_cong m' m opt_ptr λ c p q.
              kept c (omega (arith, apart.opt_low, p)) (omega (arith, apart.opt_high, q)) in
          elim (Bool-cases (i == j)) [
            | inl here ↦
                let same : i ≡ j = ground (arith, here) in
                subst (λ k. Fits opt blob_sz (section_header_at m (sect + k * section_header_size)))
                  same (subst (λ o. Fits o blob_sz sec) eo (section_fits-Fits own blob_sz sec good))
            | inr before ↦
                subst (λ x. Fits opt blob_sz x) inside
                  (copy_sections-Fits m' blob blob_sz header_ptr opt_ptr sect fuel (i + 1) header
                    opt j apart (eh' ∙ eh) (eo' ∙ eo) (sym (ap (λ r. r.0) step) ∙ ok) (omega arith)
                    (ground (arith, before, low)) high
                    (λ e. full (ap (λ x. x.size_of_raw_data) (sym inside) ∙ e)))
          ]
    ]
