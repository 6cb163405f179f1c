-- ===== src/Pe/Exports.antt =====
-- `PE32Loader::FindSymbol` of private/minkernel/src/PE32CodeMgr.cpp: the search of the export table, which
-- follows the addresses of the blob without a test.
use krnl.Kpc.{kpc_invalid_data}
use krnl.Base.{
  ℕ, zero, suc, ◌+◌, ◌*◌, ◌≤◌, ◌<◌, ◌≡◌, ◌⊎◌, subst, refl, length, get_or, Bool, true, false, ◌||◌,
  List, [], ◌∷◌, arith, inl, inr, none, some, Option, ◌==◌, if◌then◌else◌, Bool-cases,
}
use krnl.Base.Memory.{Memory}
use krnl.Ascii.{char}
use krnl.Base.Words.{load_bytes}
use krnl.Pef.Loader.{ErrorOr, value, failure}
use krnl.Pe.Headers.{ldr_find_opt_exec_header, same_name, ldr_find_exec_header}
use krnl.Pe.Image.{PeLoader, find_section_by_name}

-- The fields that the search reads, of `LDR_EXPORT_DIRECTORY`.
pub record ExportDirectory : Type 0 where
  pub number_of_names : ℕ
  pub address_of_functions : ℕ
  pub address_of_names : ℕ
  pub address_of_name_ordinal : ℕ

unfoldable pub export_directory_at : Memory → ℕ → ExportDirectory
export_directory_at m a = record {
  number_of_names = load_bytes m (a + 24) 4;
  address_of_functions = load_bytes m (a + 28) 4;
  address_of_names = load_bytes m (a + 32) 4;
  address_of_name_ordinal = load_bytes m (a + 36) 4;
}

abbrev pub pe_type_text : ℕ
pe_type_text = 100

abbrev pub pe_type_data : ℕ
pe_type_data = 101

abbrev pub pe_type_bss : ℕ
pe_type_bss = 102

-- The section that a kind of symbol is looked for in: ".data", ".bss" and ".text".
unfoldable pub section_of_kind : ℕ → Option (List ℕ)
section_of_kind kind =
    if kind == pe_type_data
    then some (46 ∷ 100 ∷ 97 ∷ 116 ∷ 97 ∷ [])
    else if kind == pe_type_bss
    then some (46 ∷ 98 ∷ 115 ∷ 115 ∷ [])
    else if kind == pe_type_text
    then some (46 ∷ 116 ∷ 101 ∷ 120 ∷ 116 ∷ [])
    else none

-- The address of the export `i`, through its ordinal.
unfoldable pub export_address : Memory → ℕ → ExportDirectory → ℕ → ℕ
export_address m blob dir i =
    let ordinal = load_bytes m (blob + dir.address_of_name_ordinal + i * 2) 2 in
    blob + load_bytes m (blob + dir.address_of_functions + ordinal * 4) 4

unfoldable pub is_exported_as : Memory → ℕ → ExportDirectory → List ℕ → ℕ → Bool
is_exported_as m blob dir name i =
    same_name m (blob + load_bytes m (blob + dir.address_of_names + i * 4) 4) name

-- The loop over the names from name `i`.
unfoldable pub find_export : Memory → ℕ → ExportDirectory → List ℕ → ℕ → ℕ → ErrorOr
find_export m blob dir name zero i = failure kpc_invalid_data
find_export m blob dir name (suc remaining) i =
    let rest = find_export m blob dir name remaining (i + 1) in
    if is_exported_as m blob dir name i then value (export_address m blob dir i) else rest

-- `FindSymbol`. The header of the section that is found is read as a pointer, and must not be null.
unfoldable pub find_pe_symbol : Memory → PeLoader → List ℕ → ℕ → ErrorOr
find_pe_symbol m loader name kind =
    let blob = loader.cached_blob in
    let data_dirs = ldr_find_opt_exec_header m blob + 96 in
    let virtual_address = load_bytes m data_dirs 4 in
    let dir = export_directory_at m (blob + virtual_address) in
    if blob == 0 || loader.bad then failure kpc_invalid_data else elim (section_of_kind kind) [
      | none ↦ failure kpc_invalid_data
      | some section_name ↦ elim (find_section_by_name m loader section_name) [
        | failure e ↦ failure kpc_invalid_data
        | value sec ↦
            (if sec == 0 || load_bytes m sec 8 == 0
              then failure kpc_invalid_data
              else if ldr_find_opt_exec_header m blob == 0
              then failure kpc_invalid_data
              else if virtual_address == 0 || load_bytes m (data_dirs + 4) 4 == 0
              then failure kpc_invalid_data
              else find_export m blob dir name dir.number_of_names 0)
      ]
    ]

-- The first hit of the loop, among those from `i` to `last`.
record Hit (m : Memory) (blob : ℕ) (dir : ExportDirectory) (name : List ℕ) (i last a : ℕ)
    : Type 0 where
  index : ℕ
  from : i ≤ index
  below : index < last
  named : is_exported_as m blob dir name index ≡ true
  first : (k : ℕ) → i ≤ k → k < index → is_exported_as m blob dir name k ≡ false
  address : a ≡ export_address m blob dir index

-- The loop answers with its first hit.
find_export-Hit :
    (m : Memory) (blob : ℕ) (dir : ExportDirectory) (name : List ℕ) (remaining i a : ℕ)
    → find_export m blob dir name remaining i ≡ value a
    → Hit m blob dir name i (i + remaining) a
unfolding find_export
find_export-Hit m blob dir name zero i a e = absurd (ground (arith, e))
find_export-Hit m blob dir name (suc remaining) i a e =
    elim (Bool-cases (is_exported_as m blob dir name i)) [
      | inl here ↦ record {
        index = i;
        from = omega arith;
        below = omega arith;
        named = here;
        first = λ k p q. absurd (omega (arith, p, q));
        address = ground (arith, e, here);
      }
      | inr elsewhere ↦
          let later =
            find_export-Hit m blob dir name remaining (i + 1) a (ground (arith, e, elsewhere)) in
          record {
            index = later.index;
            from = omega (arith, later.from);
            below = omega (arith, later.below);
            named = later.named;
            first = λ k p q. elim (Bool-cases (i == k)) [
              | inl same ↦ ground (arith, same, elsewhere)
              | inr other ↦ later.first k (ground (arith, other, p)) q
            ];
            address = later.address;
          }
    ]

-- A string stands at a place of memory: its characters, and the 0 that ends it.
pub record Spells (m : Memory) (a : ℕ) (name : List ℕ) : Type 0 where
  pub chars : (i : ℕ) → i < length name → char m (a + i) ≡ get_or name i 0
  pub ends : char m (a + length name) ≡ 0

Spells-tail : (m : Memory) (a c : ℕ) (name : List ℕ) → Spells m a (c ∷ name) → Spells m (a + 1) name
Spells-tail m a c name h = record {
  chars = λ i k.
      subst (λ b. char m b ≡ get_or name i 0) (omega arith) (h.chars (suc i) (omega (arith, k)));
  ends = subst (λ b. char m b ≡ 0) (omega arith) h.ends;
}

moved : (m : Memory) (a b c : ℕ) → char m a ≡ c → a ≡ b → char m b ≡ c
moved m a b c h e = subst (λ x. char m x ≡ c) e h

same_name-Spells :
    (m : Memory) (a : ℕ) (name : List ℕ) → same_name m a name ≡ true → Spells m a name
unfolding same_name
same_name-Spells m a [] e = record {
  chars = λ i k. absurd (omega (arith, k));
  ends = moved m a _ _ (ground (arith, e)) (omega arith);
}
same_name-Spells m a (c ∷ name) e =
    let here : char m a ≡ c = ground (arith, e) in
    let rest = same_name-Spells m (a + 1) name (ground (arith, e)) in
    record {
      chars = λ i. elim i as (λ k. k < length (c ∷ name) → char m (a + k) ≡ get_or (c ∷ name) k 0) [
        | zero ↦ λ k. moved m a _ _ here (omega arith)
        | suc j ↦ λ k. moved m (a + 1 + j) _ _ (rest.chars j (omega (arith, k))) (omega arith)
      ];
      ends = moved m (a + 1 + length name) _ _ rest.ends (omega arith);
    }

Spells-same_name :
    (m : Memory) (a : ℕ) (name : List ℕ) → Spells m a name → same_name m a name ≡ true
unfolding same_name
Spells-same_name m a [] h =
    let ends : char m a ≡ 0 = subst (λ b. char m b ≡ 0) (omega arith) h.ends in ground (arith, ends)
Spells-same_name m a (c ∷ name) h =
    let here : char m a ≡ c = subst (λ b. char m b ≡ c) (omega arith) (h.chars 0 (omega arith)) in
    ground (arith, here, Spells-same_name m (a + 1) name (Spells-tail m a c name h))

-- The place of the name `i` of an export table.
abbrev pub name_place : Memory → ℕ → ℕ → ℕ → ℕ
name_place m blob table i = blob + load_bytes m (blob + load_bytes m (table + 32) 4 + i * 4) 4

-- `a` is the first of the exports of a table that has the name: the entry of the ordinal that stands
-- at the index of the name. Names and functions have 4 bytes and ordinals 2, all relative to the blob.
pub record FirstExport (m : Memory) (blob table : ℕ) (name : List ℕ) (a : ℕ) : Type 0 where
  pub index : ℕ
  pub ordinal : ℕ
  pub below : index < load_bytes m (table + 24) 4
  pub named : Spells m (name_place m blob table index) name
  pub first : (k : ℕ) → k < index → Spells m (name_place m blob table k) name → ⊥
  pub at_index : ordinal ≡ load_bytes m (blob + load_bytes m (table + 36) 4 + index * 2) 2
  pub address : a ≡ blob + load_bytes m (blob + load_bytes m (table + 28) 4 + ordinal * 4) 4

Hit-FirstExport :
    (m : Memory) (blob table : ℕ) (name : List ℕ) (a : ℕ)
    → Hit m blob
        (export_directory_at m table)
        name
        0
        (0 + (export_directory_at m table).number_of_names)
        a
    → FirstExport m blob table name a
unfolding export_directory_at is_exported_as export_address
Hit-FirstExport m blob table name a hit = record {
  index = hit.index;
  ordinal = load_bytes m (blob + load_bytes m (table + 36) 4 + hit.index * 2) 2;
  below = omega (arith, hit.below);
  named = same_name-Spells m _ name hit.named;
  first =
      λ k q spelled. ground (arith, hit.first k (omega arith) q, Spells-same_name m _ name spelled);
  at_index = refl;
  address = hit.address;
}

-- A symbol that is answered with an address is the first export of its name, in the table that the first
-- data directory names: the function of the ordinal at the index of the name. The loader is not bad,
-- and the kind is one of the three that have a section.
pub find_pe_symbol-FirstExport :
    (m : Memory) (loader : PeLoader) (name : List ℕ) (kind a : ℕ)
    → find_pe_symbol m loader name kind ≡ value a
    → (loader.bad ≡ false)
      × ((kind ≡ 100) ⊎ ((kind ≡ 101) ⊎ (kind ≡ 102)))
      × FirstExport m loader.cached_blob
          (loader.cached_blob + load_bytes m (loader.cached_blob + 248) 4)
          name
          a
unfolding find_pe_symbol section_of_kind ldr_find_opt_exec_header ldr_find_exec_header
find_pe_symbol-FirstExport m loader name kind a e =
    let blob = loader.cached_blob in
    let place : ldr_find_opt_exec_header m blob + 96 ≡ blob + 248 = ground (arith, e) in
    let table = blob + load_bytes m (ldr_find_opt_exec_header m blob + 96) 4 in
    (
      ground (arith, e),
      ground (arith, e),
      subst (λ dirs. FirstExport m blob (blob + load_bytes m dirs 4) name a) place
          (Hit-FirstExport m blob table name a (
            find_export-Hit m blob (export_directory_at m table) name
              (export_directory_at m table).number_of_names 0 a (ground (arith, e)))),
    )
