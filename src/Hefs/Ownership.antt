-- ===== src/Hefs/Ownership.antt =====
-- Updates keep the index nodes of files apart.
use krnl.Base.{
  ℕ, ◌+◌, ◌%◌, ◌^◌, ◌≤◌, ◌<◌, ◌≡◌, ◌≢◌, ◌⊎◌, inl, inr, sym, ap, ◌∙◌, subst, arith, length, get_or,
  set,
}
use krnl.Hefs.Nodes.{BootNode, IndexNode, Directory}
use krnl.Hefs.Sectors.{as_directory, seal_boot, seal_directory}
use krnl.Hefs.Drive.{Drive, sector_of, read_directory}
use krnl.Hefs.Files.{take_slice, drop_slice, bump}
use krnl.Hefs.Owners.{Differ, Owned-take, Owned-clear}
use krnl.Hefs.Slices.{get_or-set_self, get_or-set_ne}
use krnl.Hefs.Create.{
  created, created_untouched, created_directory, created_read_only, created_lba_start,
}
use krnl.Hefs.Delete.{
  deleted, deleted_untouched, deleted_directory, deleted_read_only, deleted_lba_start,
}
use krnl.Hefs.Exclusive.{row_at, slice_at, InRegion, Exclusive}

row_apart :
    (boot : BootNode) (k k' : ℕ) → k' ≢ k → sector_of (row_at boot k') ≢ sector_of (row_at boot k)
row_apart boot k k' h e = h (omega (arith, e))

same_row : (k k' : ℕ) → (k' ≡ k) ⊎ (k' ≢ k)
same_row k k' = ground arith

module _ (d : Drive) (boot : BootNode) (node : IndexNode) (k index : ℕ) (x : Exclusive d boot) where
  abbrev row : ℕ
  row = row_at boot k

  abbrev dir : Directory
  dir = read_directory d (row_at boot k)

  abbrev made : Drive
  made = created d boot node row dir index

  created_slices :
      InRegion boot k
      → (i : ℕ) → slice_at made (bump boot) k i ≡ get_or (set dir.in_slices index boot.start_in) i 0
  unfolding bump seal_boot take_slice seal_directory
  created_slices inside i =
      ap (λ e. get_or e.in_slices i 0)
        (created_directory d boot node row dir index x.writable x.boot_there
          (omega (arith, x.boot_there, x.boot_apart)) (omega (arith, x.nodes_apart, inside))
          (omega (arith, x.boot_apart)))

  created-Differ :
      InRegion boot k → Differ (InRegion boot) (slice_at d boot) (slice_at made (bump boot)) k index
  unfolding bump seal_boot read_directory
  created-Differ inside k' i h other = elim (same_row k k') [
    | inr apart ↦
        ap (λ s. get_or (as_directory s).in_slices i 0)
          (created_untouched d boot node row dir index x.writable x.boot_there (row_at boot k')
            (row_apart boot k k' apart) (omega (arith, x.nodes_apart, h))
            (omega (arith, x.boot_apart)))
    | inl same ↦
        (let other_cell : i ≢ index = elim other [
          | inl no_row ↦ absurd (no_row same)
          | inr cell ↦ cell
        ] in
          subst (λ r. slice_at made (bump boot) r i ≡ slice_at d boot r i) (sym same)
            (created_slices inside i
              ∙ get_or-set_ne dir.in_slices index i boot.start_in other_cell))
  ]

  pub create_in-Exclusive :
      InRegion boot k
      → index < length (read_directory d (row_at boot k)).in_slices
      → boot.start_in ≤ boot.end_in
      → Exclusive made (bump boot)
  unfolding bump seal_boot
  create_in-Exclusive inside free room = record {
    writable = created_read_only d boot node row dir index ∙ x.writable;
    boot_there = λ e. x.boot_there (sym (created_lba_start d boot node row dir index) ∙ e);
    boot_apart = omega (arith, x.boot_apart, created_lba_start d boot node row dir index);
    region_small = x.region_small;
    nodes_apart = omega (arith, x.nodes_apart, room, x.nodes_small);
    nodes_small = x.nodes_small;
    owned =
        Owned-take (InRegion boot) (slice_at d boot) (slice_at made (bump boot)) k index
          (sector_of boot.end_ind) boot.start_in ((boot.start_in + 512) % 2 ^ 64)
          (created-Differ inside)
          (created_slices inside index ∙ get_or-set_self dir.in_slices index boot.start_in free)
          x.nodes_apart (omega (arith, room, x.nodes_small)) x.owned;
  }

  abbrev freed : Drive
  freed = deleted d boot node row dir index

  deleted_slices :
      InRegion boot k
      → (i : ℕ) → slice_at freed (seal_boot boot) k i ≡ get_or (set dir.in_slices index 0) i 0
  unfolding seal_boot drop_slice seal_directory
  deleted_slices inside i =
      ap (λ e. get_or e.in_slices i 0)
        (deleted_directory d boot node row dir index x.writable
          (omega (arith, x.boot_there, x.boot_apart)))

  deleted-Differ :
      InRegion boot k
      → get_or dir.in_slices index 0 ≢ 0
      → Differ (InRegion boot) (slice_at d boot) (slice_at freed (seal_boot boot)) k index
  unfolding seal_boot
  deleted-Differ inside there k' i h other = elim (same_row k k') [
    | inr apart ↦
        ap (λ e. get_or e.in_slices i 0)
          (deleted_untouched d boot node row dir index (row_at boot k') (row_apart boot k k' apart)
            (omega (arith, x.owned.behind k index inside there, h)) (omega (arith, x.boot_apart)))
    | inl same ↦
        (let other_cell : i ≢ index = elim other [
          | inl no_row ↦ absurd (no_row same)
          | inr cell ↦ cell
        ] in
          subst (λ r. slice_at freed (seal_boot boot) r i ≡ slice_at d boot r i) (sym same)
            (deleted_slices inside i ∙ get_or-set_ne dir.in_slices index i 0 other_cell))
  ]

  pub delete_in-Exclusive :
      InRegion boot k
      → index < length (read_directory d (row_at boot k)).in_slices
      → get_or (read_directory d (row_at boot k)).in_slices index 0 ≢ 0
      → Exclusive
          (deleted d boot node (row_at boot k) (read_directory d (row_at boot k)) index)
          (seal_boot boot)
  unfolding seal_boot
  delete_in-Exclusive inside held there = record {
    writable = deleted_read_only d boot node row dir index ∙ x.writable;
    boot_there = λ e. x.boot_there (sym (deleted_lba_start d boot node row dir index) ∙ e);
    boot_apart = omega (arith, x.boot_apart, deleted_lba_start d boot node row dir index);
    region_small = x.region_small;
    nodes_apart = x.nodes_apart;
    nodes_small = x.nodes_small;
    owned =
        Owned-clear (InRegion boot) (slice_at d boot) (slice_at freed (seal_boot boot)) k index
          (sector_of boot.end_ind) boot.start_in (deleted-Differ inside there)
          (deleted_slices inside index ∙ get_or-set_self dir.in_slices index 0 held) x.owned;
  }
