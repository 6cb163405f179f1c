-- ===== src/Pe/Window.antt =====
-- What loading an image writes.
use krnl.Base.{
  ℕ, zero, suc, ◌+◌, ◌-◌, ◌*◌, ◌≤◌, ◌<◌, ◌≡◌, ◌≢◌, ◌⊎◌, inl, inr, refl, sym, ap, subst, ◌∙◌, ◌/◌,
  true, arith, ltb, ◌==◌, Bool-cases,
}
use krnl.Base.Words.{load_bytes_cong}
use krnl.Pef.Blobs.{Agree}
use krnl.Pef.Interface.{PageOps}
use krnl.Pef.Loader.{page_sz, section_flags}
use krnl.Base.Memory.{Memory}
use krnl.Ascii.Copy.{copy_memory_safe_fits, copy_memory_safe_fails}
use krnl.Pe.Headers.{
  OptionalHeader, SectionHeader, exec_header_at, optional_header_at, section_header_at,
  section_header_size,
}
use krnl.Pe.Image.{image_pages, fresh_page, map_pages, section_fits, copy_section, copy_sections}

-- The bounds that the test of a section stands for.
pub record Fits (opt : OptionalHeader) (blob_sz : ℕ) (sec : SectionHeader) : Type 0 where
  pub in_image : sec.virtual_address + sec.size_of_raw_data ≤ opt.size_of_image
  pub in_blob : sec.pointer_to_raw_data + sec.size_of_raw_data ≤ blob_sz

pub section_fits-Fits :
    (opt : OptionalHeader) (blob_sz : ℕ) (sec : SectionHeader)
    → section_fits opt blob_sz sec ≡ true
    → Fits opt blob_sz sec
unfolding section_fits
section_fits-Fits opt blob_sz sec e = record {
  in_image = ground (arith, e);
  in_blob = ground (arith, e);
}

-- A byte outside the image of an optional header.
abbrev pub Outside : OptionalHeader → ℕ → Type 0
Outside opt b = (b < opt.image_base) ⊎ (opt.image_base + opt.size_of_image ≤ b)

-- The copy of a section that fits writes inside the image.
pub copy_section-Outside :
    (m : Memory) (blob blob_sz : ℕ) (opt : OptionalHeader) (sec : SectionHeader) (b : ℕ)
    → Fits opt blob_sz sec
    → blob ≢ 0
    → Outside opt b
    → copy_section m blob opt sec b ≡ m b
unfolding copy_section
copy_section-Outside m blob blob_sz opt sec b fits there out =
    elim (Bool-cases (opt.image_base + sec.virtual_address == 0)) [
      | inl nowhere ↦
          let (status, same) =
            copy_memory_safe_fails m (blob + sec.pointer_to_raw_data)
              (opt.image_base + sec.virtual_address) sec.size_of_raw_data
              (opt.size_of_image - sec.virtual_address) b (inr (inl (ground (arith, nowhere)))) in
          ground (arith, same, nowhere)
      | inr somewhere ↦
          let (status, inside, outside) =
            copy_memory_safe_fits m (blob + sec.pointer_to_raw_data)
              (opt.image_base + sec.virtual_address) sec.size_of_raw_data
              (opt.size_of_image - sec.virtual_address) (λ e. there (omega (arith, e)))
              (λ e. ground (arith, somewhere, e)) (omega (arith, fits.in_image)) in
          outside b (elim out [
            | inl low ↦ inl (omega (arith, low))
            | inr high ↦ inr (omega (arith, high, fits.in_image))
          ])
    ]

-- Headers that lie outside the image stay what they are.
pub optional_header_cong :
    (m m' : Memory) (a : ℕ) → Agree m m' a 96 → optional_header_at m a ≡ optional_header_at m' a
unfolding optional_header_at
optional_header_cong m m' a h = cc (
  load_bytes_cong m m' (a + 16) 4 (λ b p q. h b (omega arith) (omega arith)),
  load_bytes_cong m m' (a + 24) 8 (λ b p q. h b (omega arith) (omega arith)),
  load_bytes_cong m m' (a + 56) 4 (λ b p q. h b (omega arith) (omega arith)),
  load_bytes_cong m m' (a + 68) 2 (λ b p q. h b (omega arith) (omega arith)),
)

pub copy_sections-Outside :
    (m : Memory) (blob blob_sz header_ptr opt_ptr sect fuel i : ℕ) (opt : OptionalHeader) (b : ℕ)
    → blob ≢ 0
    → optional_header_at m opt_ptr ≡ opt
    → ((c : ℕ) → opt_ptr ≤ c → c < opt_ptr + 96 → Outside opt c)
    → Outside opt b
    → (copy_sections m blob blob_sz header_ptr opt_ptr sect fuel i).1 b ≡ m b
unfolding copy_sections
copy_sections-Outside m blob blob_sz header_ptr opt_ptr sect zero i opt b there e apart out = refl
copy_sections-Outside m blob blob_sz header_ptr opt_ptr sect (suc fuel) i opt b there e apart out =
    let sec = section_header_at m (sect + i * section_header_size) in
    elim (Bool-cases (ltb i (exec_header_at m header_ptr).number_of_sections)) [
      | inr past ↦ rw (copy_sections, past) refl
      | inl here ↦ elim (Bool-cases (sec.size_of_raw_data == 0)) [
        | inl none_left ↦
            rw (copy_sections, here, none_left)
              (copy_sections-Outside m blob blob_sz header_ptr opt_ptr sect fuel (i + 1) opt b there
                e apart out)
        | inr some_left ↦
            let own = optional_header_at m opt_ptr in
            elim (Bool-cases (section_fits own blob_sz sec)) [
              | inr bad ↦ rw (copy_sections, here, some_left, bad) refl
              | inl good ↦
                  let kept = λ (c : ℕ) (o : Outside opt c).
                    copy_section-Outside m blob blob_sz own sec c
                      (section_fits-Fits own blob_sz sec good) there
                      (subst (λ x. Outside x c) (sym e) o) in
                  let same =
                    optional_header_cong (copy_section m blob own sec) m opt_ptr
                      λ c p q. kept c (apart c p q) in
                  rw (copy_sections, here, some_left, good)
                    (copy_sections-Outside (copy_section m blob own sec) blob blob_sz header_ptr
                        opt_ptr sect fuel (i + 1) opt b there (same ∙ e) apart out
                      ∙ kept b out)
            ]
      ]
    ]

-- A byte outside the pages of an image: those from the page in which the base lies, as many as the size
-- of the image takes, counted from the base.
abbrev pub Beyond : OptionalHeader → ℕ → Type 0
Beyond opt b =
    (b < opt.image_base / page_sz * page_sz)
    ⊎ (opt.image_base + (opt.size_of_image + page_sz - 1) / page_sz * page_sz ≤ b)

image_pages-round_up :
    (opt : OptionalHeader) → image_pages opt ≡ (opt.size_of_image + page_sz - 1) / page_sz
unfolding image_pages
image_pages-round_up opt = ground arith

pub Beyond-Outside : (opt : OptionalHeader) (b : ℕ) → Beyond opt b → Outside opt b
Beyond-Outside opt b (inl low) = inl (omega (arith, low))
Beyond-Outside opt b (inr high) = inr (omega (arith, high))

fresh_page-Beyond :
    (m : Memory) (opt : OptionalHeader) (i b : ℕ)
    → i < image_pages opt
    → Beyond opt b
    → fresh_page m (opt.image_base + i * page_sz) b ≡ m b
unfolding fresh_page
fresh_page-Beyond m opt i b k (inl low) = ground (arith, low)
fresh_page-Beyond m opt i b k (inr high) =
    let pages = image_pages-round_up opt in
    let over : (opt.image_base + i * page_sz) / page_sz * page_sz + page_sz ≤ b =
      omega (arith, high, pages, k) in
    ground (arith, over)

pub map_pages-Beyond :
    {S : Type 0} (ops : PageOps S) (m : Memory) (s : S) (opt_ptr remaining i : ℕ)
    (opt : OptionalHeader) (b : ℕ)
    → optional_header_at m opt_ptr ≡ opt
    → ((c : ℕ) → opt_ptr ≤ c → c < opt_ptr + 96 → Beyond opt c)
    → Beyond opt b
    → i + remaining ≤ image_pages opt
    → (map_pages ops m s opt_ptr remaining i).2 b ≡ m b
unfolding map_pages
map_pages-Beyond ops m s opt_ptr zero i opt b e apart out few = refl
map_pages-Beyond ops m s opt_ptr (suc remaining) i opt b e apart out few =
    let (frame, s') = ops.alloc_frame s in
    let virt = (optional_header_at m opt_ptr).image_base + i * page_sz in
    let (status, s'') = ops.map_page s' virt frame section_flags in
    let kept = λ (c : ℕ) (o : Beyond opt c).
      ap (λ x. fresh_page m (x.image_base + i * page_sz) c) e
      ∙ fresh_page-Beyond m opt i c (omega (arith, few)) o in
    let same = optional_header_cong (fresh_page m virt) m opt_ptr λ c p q. kept c (apart c p q) in
    let rest =
      map_pages-Beyond ops (fresh_page m virt) s'' opt_ptr remaining (i + 1) opt b (same ∙ e) apart
        out (omega (arith, few))
      ∙ kept b out in
    ground (arith, rest)
