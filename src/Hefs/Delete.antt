-- ===== src/Hefs/Delete.antt =====
-- What a deletion leaves to be read.
use krnl.Base.{ℕ, ◌≡◌, ◌≢◌, refl, ap, ◌∙◌, false, get_or}
use krnl.Hefs.Nodes.{BootNode, IndexNode, Directory}
use krnl.Hefs.Sectors.{as_directory, boot_sector, node_sector, directory_sector, seal_boot}
use krnl.Hefs.Drive.{
  Drive, sector_of, drv_input, read_directory, write_directory, write_node, write_boot,
}
use krnl.Hefs.Files.{drop_slice, delete_in}
use krnl.Hefs.Transfers.{
  sectors-drv_output_other, sectors-drv_output_self, drv_output_read_only, drv_output_lba_start,
}

module _ (d : Drive) (boot : BootNode) (node : IndexNode) (p : ℕ) (dir : Directory)
    (index : ℕ) where
  abbrev pub deleted : Drive
  deleted = (delete_in d boot node p dir index).drive

  abbrev pub lba_of : ℕ
  lba_of = get_or dir.in_slices index 0

  abbrev gone : IndexNode
  gone = record node { offset_slice_low = 0; offset_slice_high = 0 }

  abbrev with_boot : Drive
  with_boot = write_boot (drv_input d) d.lba_start (seal_boot boot)

  abbrev with_node : Drive
  with_node = write_node with_boot lba_of gone

  deleted-write_directory : deleted ≡ write_directory with_node p (drop_slice dir index)
  unfolding delete_in
  deleted-write_directory = refl

  pub deleted_read_only : deleted.packet_read_only ≡ d.packet_read_only
  deleted_read_only =
      ap (λ e. e.packet_read_only) deleted-write_directory
      ∙ drv_output_read_only with_node p (directory_sector (drop_slice dir index))
      ∙ drv_output_read_only with_boot lba_of (node_sector gone)
      ∙ drv_output_read_only (drv_input d) d.lba_start (boot_sector (seal_boot boot))

  pub deleted_lba_start : deleted.lba_start ≡ d.lba_start
  deleted_lba_start =
      ap (λ e. e.lba_start) deleted-write_directory
      ∙ drv_output_lba_start with_node p (directory_sector (drop_slice dir index))
      ∙ drv_output_lba_start with_boot lba_of (node_sector gone)
      ∙ drv_output_lba_start (drv_input d) d.lba_start (boot_sector (seal_boot boot))

  pub deleted_untouched :
      (q : ℕ)
      → sector_of q ≢ sector_of p
      → sector_of q ≢ sector_of lba_of
      → sector_of q ≢ sector_of d.lba_start
      → read_directory deleted q ≡ read_directory d q
  unfolding read_directory
  deleted_untouched q at_directory at_node at_boot = ap as_directory (
      ap (λ e. e.sectors (sector_of q)) deleted-write_directory
      ∙ sectors-drv_output_other with_node p q (directory_sector (drop_slice dir index))
          at_directory
      ∙ sectors-drv_output_other with_boot lba_of q (node_sector gone) at_node
      ∙ sectors-drv_output_other (drv_input d) d.lba_start q (boot_sector (seal_boot boot)) at_boot)

  pub deleted_directory :
      d.packet_read_only ≡ false → p ≢ 0 → read_directory deleted p ≡ drop_slice dir index
  unfolding read_directory as_directory
  deleted_directory writable there = ap as_directory (
      ap (λ e. e.sectors (sector_of p)) deleted-write_directory
      ∙ sectors-drv_output_self with_node p (directory_sector (drop_slice dir index))
          (drv_output_read_only with_boot lba_of (node_sector gone)
            ∙ drv_output_read_only (drv_input d) d.lba_start (boot_sector (seal_boot boot))
            ∙ writable)
          there)
