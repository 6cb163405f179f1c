-- ===== src/Paging/Entries.antt =====
-- What the walk and the entries of the page tables say.
use krnl.Base.{
  ◌||◌, ℕ, zero, suc, ◌+◌, ◌*◌, ◌%◌, ◌^◌, ◌<◌, ◌≡◌, ◌≢◌, ◌⊎◌, inl, inr, refl, ap, ◌∙◌, Bool,
  Bool-cases, true, false, not, arith, ◌==◌, if◌then◌else◌,
}
use krnl.Base.Memory.{load64, store64}
use krnl.Physical.{Pmm, page_size}
use krnl.Paging.{
  PageFlags, is_present, address_of, entry_at, page_entry, mm_map_page_in, walk_from, enter,
  mm_walk_page, mm_unmap_page,
}

-- An entry made for an aligned frame below 2 ^ 52 reads back as that frame, is present exactly if the
-- flags say so, and fits a word.
pub page_entry-address :
    (phys : ℕ) (f : PageFlags)
    → phys % page_size ≡ 0
    → phys < 2 ^ 52
    → (address_of (page_entry phys f) ≡ phys)
      × (is_present (page_entry phys f) ≡ f.present)
      × (page_entry phys f < 2 ^ 64)
unfolding page_entry
page_entry-address phys f al h = (ground arith, ground arith, ground arith)

if_true : {A : Type 0} (b : Bool) (x y : A) → b ≡ true → (if b then x else y) ≡ x
if_true b x y h = ap (λ c. if c then x else y) h

if_false : {A : Type 0} (b : Bool) (x y : A) → b ≡ false → (if b then x else y) ≡ y
if_false b x y h = ap (λ c. if c then x else y) h

zero_test : (n : ℕ) → n ≡ 0 → (n == 0) ≡ true
zero_test n e = ground arith

nonzero_test : (n : ℕ) → n ≢ 0 → not (n == 0) ≡ true
nonzero_test n e = ground arith

-- A page at a null or unaligned frame is not mapped, and nothing changes.
pub map_page_refused :
    (p : Pmm) (root virt phys flags : ℕ)
    → (phys ≡ 0) ⊎ (phys % page_size ≢ 0)
    → mm_map_page_in p root virt phys flags ≡ (56, p)
unfolding mm_map_page_in
map_page_refused p root virt phys flags (inl e) = if_true (phys == 0) _ _ (zero_test phys e)
map_page_refused p root virt phys flags (inr ne) = elim (Bool-cases (phys == 0)) [
  | inl e ↦ if_true (phys == 0) _ _ e
  | inr e ↦
      if_false (phys == 0) _ _ e ∙ if_true (not (phys % page_size == 0)) _ _ (nonzero_test _ ne)
]

-- A walk that may not allocate leaves the allocator's list and counters.
pub record Untouched (p q : Pmm) : Type 0 where
  pub cursor : q.cursor ≡ p.cursor
  pub free_head : q.free_head ≡ p.free_head
  pub free : q.free ≡ p.free
  pub used : q.used ≡ p.used

enter-Untouched : (p : Pmm) (slot shift : ℕ) → Untouched p (enter p slot shift false).1
unfolding enter
enter-Untouched p slot shift = record {
  cursor = ground arith;
  free_head = ground arith;
  free = ground arith;
  used = ground arith;
}

Untouched-both : {p q r : Pmm} → Untouched p q → Untouched q r → Untouched p r
Untouched-both u v = record {
  cursor = v.cursor ∙ u.cursor;
  free_head = v.free_head ∙ u.free_head;
  free = v.free ∙ u.free;
  used = v.used ∙ u.used;
}

either-Untouched :
    (p : Pmm) (b : Bool) (x y : ℕ × Pmm)
    → Untouched p x.1
    → Untouched p y.1
    → Untouched p (if b then x else y).1
either-Untouched p true x y u v = u
either-Untouched p false x y u v = v

walk_from-Untouched :
    (level : ℕ) (p : Pmm) (table virt : ℕ) → Untouched p (walk_from level p table virt false).1
unfolding walk_from
walk_from-Untouched zero p table virt = record {
  cursor = refl;
  free_head = refl;
  free = refl;
  used = refl;
}
walk_from-Untouched (suc level) p table virt =
    let entered =
      enter-Untouched p (entry_at table virt (12 + 9 * suc level)) (12 + 9 * suc level) in
    either-Untouched p _ _ _ (Untouched-both entered (walk_from-Untouched level _ _ virt)) entered

walk-Untouched : (p : Pmm) (root virt : ℕ) → Untouched p (mm_walk_page p root virt false).1
unfolding mm_walk_page
walk-Untouched p root virt =
    either-Untouched p (root == 0) _ _
      (record { cursor = refl; free_head = refl; free = refl; used = refl })
      (walk_from-Untouched 3 p _ virt)

-- Unmapping a page neither takes nor gives back a frame: the allocator's cursor, list and counters
-- stay.
pub mm_unmap_page-Untouched : (p : Pmm) (cr3 virt : ℕ) → Untouched p (mm_unmap_page p cr3 virt).1
unfolding mm_unmap_page
mm_unmap_page-Untouched p cr3 virt =
    let walked = walk-Untouched p cr3 virt in
    let slot = (mm_walk_page p cr3 virt false).0 in
    let q = (mm_walk_page p cr3 virt false).1 in
    either-Untouched p ((slot == 0) || not (is_present (load64 q.mem slot))) (0, q)
      (address_of (load64 q.mem slot), record q { mem = store64 q.mem slot 0 }) walked
      (Untouched-both walked (record { cursor = refl; free_head = refl; free = refl; used = refl }))
