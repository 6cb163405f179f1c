-- ===== src/Pef/Bounds.antt =====
-- Where the section that a search answers with lies.
use krnl.Base.{
  ℕ, zero, suc, ◌+◌, ◌*◌, ◌≤◌, ◌<◌, ◌≡◌, ◌≢◌, refl, subst, ==→eq, Bool, true, List, some, arith,
  ◌==◌, Bool-cases, Option-cases, inl, inr,
}
use krnl.Base.Memory.{Memory}
use krnl.Pef.Container.{
  PefContainer, PefCommandHeader, container_at, header_at, pef_magic_eq, pef_magic_fat, pef_name_eq,
  pef_read_container, accepts, find_header, pef_find_section, container_size, header_size,
  pef_base_origin, pef_max_image_sz, pef_max_sections,
}

-- A section of the image window whose content, if it has any, lies in the blob behind the table of
-- headers.
pub record Sound (len count : ℕ) (hdr : PefCommandHeader) : Type 0 where
  pub some_size : 1 ≤ hdr.vm_size
  pub window_start : pef_base_origin ≤ hdr.vm_address
  pub window_end : hdr.vm_address + hdr.vm_size ≤ pef_base_origin + pef_max_image_sz
  pub fits : hdr.offset_size ≤ hdr.vm_size
  pub content_start : hdr.offset_size ≢ 0 → container_size + count * header_size ≤ hdr.offset
  pub content_end : hdr.offset_size ≢ 0 → hdr.offset + hdr.offset_size ≤ len

accepts-Sound :
    (len count : ℕ) (is_fat : Bool) (hdr : PefCommandHeader)
    → accepts len is_fat (count * header_size) hdr ≡ true
    → Sound len count hdr
unfolding accepts
accepts-Sound len count is_fat hdr e = record {
  some_size = ground (arith, e);
  window_start = ground (arith, e);
  window_end = ground (arith, e);
  fits = ground (arith, e);
  content_start = λ there. ground (arith, e, there);
  content_end = λ there. ground (arith, e, there);
}

pub container_fits :
    (m : Memory) (blob len : ℕ) (out : PefContainer)
    → pef_read_container m blob len ≡ some out
    → (out ≡ container_at m blob)
      × (1 ≤ out.count)
      × (out.count ≤ pef_max_sections)
      × (container_size + out.count * header_size ≤ len)
unfolding pef_read_container
container_fits m blob len out e =
    let same : container_at m blob ≡ out = ground (arith, e) in
    subst
      (λ c.
        (c ≡ container_at m blob)
        × (1 ≤ c.count)
        × (c.count ≤ pef_max_sections)
        × (container_size + c.count * header_size ≤ len))
      same (refl, ground (arith, e), ground (arith, e), ground (arith, e))

-- The header that the search answers with is one of the table.
pub record Listed (m : Memory) (blob len count : ℕ) (name : List ℕ) (kind : ℕ)
    (hdr : PefCommandHeader) : Type 0 where
  pub index : ℕ
  pub inside : index < count
  pub stored : hdr ≡ header_at m (blob + container_size + index * header_size)
  pub same_kind : hdr.kind ≡ kind
  pub same_name : pef_name_eq hdr.name name ≡ true
  pub sound : Sound len count hdr

find_header-Listed :
    (m : Memory) (blob len : ℕ) (name : List ℕ) (kind : ℕ) (is_fat : Bool) (count remaining i : ℕ)
    (hdr : PefCommandHeader)
    → i + remaining ≡ count
    → find_header m blob len name kind is_fat (count * header_size) remaining i ≡ some hdr
    → Listed m blob len count name kind hdr
unfolding find_header
find_header-Listed m blob len name kind is_fat count zero i hdr total e = absurd (cc e)
find_header-Listed m blob len name kind is_fat count (suc remaining) i hdr total e =
    let out = header_at m (blob + container_size + i * header_size) in
    let next = find_header m blob len name kind is_fat (count * header_size) remaining (i + 1) in
    elim (Bool-cases (out.kind == kind)) [
      | inr other ↦
          (let later : next ≡ some hdr = ground (arith, e, other) in
            find_header-Listed m blob len name kind is_fat count remaining (i + 1) hdr
              (omega (arith, total)) later)
      | inl match_kind ↦ elim (Bool-cases (pef_name_eq out.name name)) [
        | inr other ↦
            (let later : next ≡ some hdr = ground (arith, e, other, match_kind) in
              find_header-Listed m blob len name kind is_fat count remaining (i + 1) hdr
                (omega (arith, total)) later)
        | inl match_name ↦ elim (Bool-cases (accepts len is_fat (count * header_size) out)) [
          | inr refused ↦ absurd (ground (arith, e, match_kind, match_name, refused))
          | inl accepted ↦
              (let same : out ≡ hdr = ground (arith, e, match_kind, match_name, accepted) in
                subst (λ h. Listed m blob len count name kind h) same
                  (record {
                    index = i;
                    inside = omega (arith, total);
                    stored = refl;
                    same_kind = ==→eq out.kind kind match_kind;
                    same_name = match_name;
                    sound = accepts-Sound len count is_fat out accepted;
                  }))
        ]
      ]
    ]

-- A section that is found in a blob stands in the blob's table of at most 64 headers, which lies in the
-- blob whole, under the name and the kind asked for; its pages lie in the image window of 64 MiB, and its
-- content, if it has any, in the blob behind the table.
pub pef_find_section-Listed :
    (m : Memory) (blob len : ℕ) (name : List ℕ) (kind : ℕ) (hdr : PefCommandHeader)
    → pef_find_section m blob len name kind ≡ some hdr
    → (container_size + (container_at m blob).count * header_size ≤ len)
      × ((container_at m blob).count ≤ pef_max_sections)
      × Listed m blob len (container_at m blob).count name kind hdr
unfolding pef_find_section
pef_find_section-Listed m blob len name kind hdr e =
    elim (Option-cases (pef_read_container m blob len)) [
      | inl no_container ↦ absurd (ground (arith, e, no_container))
      | inr (out, container) ↦
          (let (same, low, high, fits) = container_fits m blob len out container in
            let found : find_header m blob len name kind (pef_magic_eq out.magic pef_magic_fat)
                  (out.count * header_size) out.count 0
                ≡ some hdr =
              ground (arith, e, container) in
            subst
              (λ c.
                (container_size + c.count * header_size ≤ len)
                × (c.count ≤ pef_max_sections)
                × Listed m blob len c.count name kind hdr)
              same
              (
                fits,
                high,
                find_header-Listed m blob len name kind (pef_magic_eq out.magic pef_magic_fat)
                    out.count out.count 0 hdr (omega arith) found,
              ))
    ]
