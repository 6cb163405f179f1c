-- ===== src/Hefs/Create.antt =====
-- A file that is created is found.
use krnl.Base.{ℕ, ◌+◌, ◌^◌, ◌≤◌, ◌<◌, ◌≡◌, ◌≢◌, refl, ap, ◌∙◌, false}
use krnl.Hefs.Nodes.{BootNode, IndexNode, Directory}
use krnl.Hefs.Sectors.{as_directory, as_node, boot_sector, node_sector, directory_sector}
use krnl.Hefs.Drive.{
  Drive, sector_of, drv_input, read_node, read_directory, write_directory, write_node, write_boot,
}
use krnl.Hefs.Files.{take_slice, place_node, bump, create_in}
use krnl.Hefs.Transfers.{
  sectors-drv_output_other, sectors-drv_output_self, drv_output_read_only, drv_output_lba_start,
  drv_output_error,
}

-- A drive that can be written, with a file system whose regions have room for one more file of the
-- directory at `p`: the directory lies apart from the boot node and from the next index node.
pub record Room (d : Drive) (boot : BootNode) (p : ℕ) : Type 0 where
  pub writable : d.packet_read_only ≡ false
  pub boot_there : d.lba_start ≢ 0
  pub boot_apart : d.lba_start + 512 ≤ boot.start_ind
  pub region : boot.start_ind ≤ boot.end_ind
  pub region_small : boot.end_ind + 512 < 2 ^ 64
  pub node_apart : sector_of p < sector_of boot.start_in
  pub node_room : boot.start_in + 512 ≤ boot.end_in
  pub node_small : boot.end_in < 2 ^ 64
  pub block_room : boot.start_block ≤ boot.end_block

module _ (d : Drive) (boot : BootNode) (node : IndexNode) (p : ℕ) (dir : Directory)
    (index : ℕ) where
  abbrev pub created : Drive
  created = (create_in d boot node p dir index).drive

  abbrev with_directory : Drive
  with_directory = write_directory (drv_input d) p (take_slice boot dir index)

  abbrev with_node : Drive
  with_node = write_node with_directory boot.start_in (place_node boot node)

  created-write_boot : created ≡ write_boot with_node d.lba_start (bump boot)
  unfolding create_in
  created-write_boot =
      rw
        (
          drv_output_lba_start (write_directory (drv_input d) p (take_slice boot dir index))
              boot.start_in (node_sector (place_node boot node)),
          drv_output_lba_start (drv_input d) p (directory_sector (take_slice boot dir index)),
        )
        refl

  pub created_lba_start : created.lba_start ≡ d.lba_start
  created_lba_start =
      ap (λ e. e.lba_start) created-write_boot
      ∙ drv_output_lba_start with_node d.lba_start (boot_sector (bump boot))
      ∙ drv_output_lba_start with_directory boot.start_in (node_sector (place_node boot node))
      ∙ drv_output_lba_start (drv_input d) p (directory_sector (take_slice boot dir index))

  pub created_read_only : created.packet_read_only ≡ d.packet_read_only
  created_read_only =
      ap (λ e. e.packet_read_only) created-write_boot
      ∙ drv_output_read_only with_node d.lba_start (boot_sector (bump boot))
      ∙ drv_output_read_only with_directory boot.start_in (node_sector (place_node boot node))
      ∙ drv_output_read_only (drv_input d) p (directory_sector (take_slice boot dir index))

  module _ (writable : d.packet_read_only ≡ false) (boot_there : d.lba_start ≢ 0) where
    directory_writable : with_directory.packet_read_only ≡ false
    directory_writable =
        drv_output_read_only (drv_input d) p (directory_sector (take_slice boot dir index))
        ∙ writable

    node_writable : with_node.packet_read_only ≡ false
    node_writable =
        drv_output_read_only with_directory boot.start_in (node_sector (place_node boot node))
        ∙ directory_writable

    pub created_error : created.error ≡ 0
    created_error =
        ap (λ e. e.error) created-write_boot
        ∙ drv_output_error with_node d.lba_start (boot_sector (bump boot)) node_writable boot_there

    pub created_untouched :
        (q : ℕ)
        → sector_of q ≢ sector_of p
        → sector_of q ≢ sector_of boot.start_in
        → sector_of q ≢ sector_of d.lba_start
        → created.sectors (sector_of q) ≡ d.sectors (sector_of q)
    created_untouched q at_directory at_node at_boot =
        ap (λ e. e.sectors (sector_of q)) created-write_boot
        ∙ sectors-drv_output_other with_node d.lba_start q (boot_sector (bump boot)) at_boot
        ∙ sectors-drv_output_other with_directory boot.start_in q
            (node_sector (place_node boot node)) at_node
        ∙ sectors-drv_output_other (drv_input d) p q (directory_sector (take_slice boot dir index))
            at_directory

    pub created_directory :
        p ≢ 0
        → sector_of p ≢ sector_of boot.start_in
        → sector_of p ≢ sector_of d.lba_start
        → read_directory created p ≡ take_slice boot dir index
    unfolding read_directory as_directory
    created_directory there at_node at_boot = ap as_directory (
        ap (λ e. e.sectors (sector_of p)) created-write_boot
        ∙ sectors-drv_output_other with_node d.lba_start p (boot_sector (bump boot)) at_boot
        ∙ sectors-drv_output_other with_directory boot.start_in p
            (node_sector (place_node boot node)) at_node
        ∙ sectors-drv_output_self (drv_input d) p (directory_sector (take_slice boot dir index))
            writable there)

    pub created_node :
        boot.start_in ≢ 0
        → sector_of boot.start_in ≢ sector_of d.lba_start
        → read_node created boot.start_in ≡ place_node boot node
    unfolding read_node as_node
    created_node there at_boot = ap as_node (
        ap (λ e. e.sectors (sector_of boot.start_in)) created-write_boot
        ∙ sectors-drv_output_other with_node d.lba_start boot.start_in (boot_sector (bump boot))
            at_boot
        ∙ sectors-drv_output_self with_directory boot.start_in (node_sector (place_node boot node))
            directory_writable there)
