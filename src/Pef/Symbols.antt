-- ===== src/Pef/Symbols.antt =====
-- The address that the loader answers with for a symbol.
use krnl.Base.{
  ℕ, ◌+◌, ◌≡◌, ◌≢◌, refl, sym, ap, ◌∙◌, true, false, ◌||◌, List, none, some, arith, ltb, ◌==◌,
  if◌then◌else◌, Bool-cases, Option-cases, inl, inr,
}
use krnl.Base.Memory.{Memory}
use krnl.Pef.Interface.{PageOps}
use krnl.Pef.Container.{
  PefCommandHeader, container_at, pef_name_len, pef_make_name, pef_find_section,
}
use krnl.Pef.Loader.{PefLoader, value, failure, pef_load_section, load_pages, pages_of, find_symbol}
use krnl.Pef.Bounds.{Listed, pef_find_section-Listed}

module _ {S : Type 0} (ops : PageOps S) where
  load_section_value :
      (s : S) (hdr : PefCommandHeader) (src a : ℕ)
      → (pef_load_section ops s hdr src).0 ≡ value a
      → (a ≡ hdr.vm_address) × (src ≢ 0)
  unfolding pef_load_section
  load_section_value s hdr src a e =
      elim (Bool-cases (load_pages ops s hdr.vm_address (pages_of hdr) 0).0) [
        | inl loaded ↦ (ground (arith, e, loaded), λ z. ground (arith, e, z))
        | inr not_loaded ↦ absurd (ground (arith, e, not_loaded))
      ]

  abbrev source_of : PefLoader → PefCommandHeader → ℕ
  source_of loader hdr = if ltb 0 hdr.offset_size then loader.cached_blob + hdr.offset else 0

  symbol_bad :
      (m : Memory) (s : S) (loader : PefLoader) (name : List ℕ) (kind : ℕ)
      → (loader.cached_blob == 0 || loader.bad) ≡ true
      → find_symbol ops m s loader name kind ≡ (failure 56, s)
  unfolding find_symbol
  symbol_bad m s loader name kind bad = rw (find_symbol, bad) refl

  symbol_unnamed :
      (m : Memory) (s : S) (loader : PefLoader) (name : List ℕ) (kind : ℕ)
      → (loader.cached_blob == 0 || loader.bad) ≡ false
      → pef_make_name pef_name_len kind name ≡ none
      → find_symbol ops m s loader name kind ≡ (failure 56, s)
  unfolding find_symbol
  symbol_unnamed m s loader name kind good unnamed = rw (find_symbol, good, unnamed) refl

  symbol_missing :
      (m : Memory) (s : S) (loader : PefLoader) (name : List ℕ) (kind : ℕ) (sect_name : List ℕ)
      → (loader.cached_blob == 0 || loader.bad) ≡ false
      → pef_make_name pef_name_len kind name ≡ some sect_name
      → pef_find_section m loader.cached_blob loader.cached_blob_sz sect_name kind ≡ none
      → find_symbol ops m s loader name kind ≡ (failure 56, s)
  unfolding find_symbol
  symbol_missing m s loader name kind sect_name good named missing =
      rw (find_symbol, good, named, missing) refl

  symbol_found :
      (m : Memory) (s : S) (loader : PefLoader) (name : List ℕ) (kind : ℕ) (sect_name : List ℕ)
      (hdr : PefCommandHeader)
      → (loader.cached_blob == 0 || loader.bad) ≡ false
      → pef_make_name pef_name_len kind name ≡ some sect_name
      → pef_find_section m loader.cached_blob loader.cached_blob_sz sect_name kind ≡ some hdr
      → find_symbol ops m s loader name kind ≡ pef_load_section ops s hdr (source_of loader hdr)
  unfolding find_symbol
  symbol_found m s loader name kind sect_name hdr good named found =
      rw (find_symbol, good, named, found) refl

  -- A loader with a blob that answers with an address for a symbol found a section of the symbol's
  -- name and kind in the table of its blob, and answers with the section's place in the image window;
  -- a section without content is never answered with.
  pub find_symbol-Listed :
      (m : Memory) (s : S) (loader : PefLoader) (name : List ℕ) (kind a : ℕ)
      → (find_symbol ops m s loader name kind).0 ≡ value a
      → (sect_name : List ℕ) × (pef_make_name pef_name_len kind name ≡ some sect_name)
        × (hdr : PefCommandHeader) × Listed m loader.cached_blob loader.cached_blob_sz
            (container_at m loader.cached_blob).count
            sect_name
            kind
            hdr
        × (a ≡ hdr.vm_address)
        × (loader.bad ≡ false)
        × (hdr.offset_size ≢ 0)
  find_symbol-Listed m s loader name kind a e =
      elim (Bool-cases (loader.cached_blob == 0 || loader.bad)) [
        | inl bad ↦ absurd (cc (symbol_bad m s loader name kind bad, e))
        | inr good ↦ elim (Option-cases (pef_make_name pef_name_len kind name)) [
          | inl unnamed ↦ absurd (cc (symbol_unnamed m s loader name kind good unnamed, e))
          | inr (sect_name, named) ↦
              elim (Option-cases
                (pef_find_section m loader.cached_blob loader.cached_blob_sz sect_name kind)) [
                  | inl missing ↦
                      absurd
                        (cc (symbol_missing m s loader name kind sect_name good named missing, e))
                  | inr (hdr, found) ↦
                      (let (fits, low, listed) =
                          pef_find_section-Listed m loader.cached_blob loader.cached_blob_sz
                            sect_name kind hdr found in
                        let (address, there) = load_section_value s hdr (source_of loader hdr) a (
                          ap (λ r. r.0)
                            (sym (symbol_found m s loader name kind sect_name hdr good named found))
                          ∙ e) in
                        (
                          sect_name,
                          named,
                          hdr,
                          listed,
                          address,
                          ground (arith, good),
                          λ z. there (ground (arith, z)),
                        ))
                ]
        ]
      ]
