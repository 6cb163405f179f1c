-- ===== src/Hefs/Transfers.antt =====
-- What a write to a drive leaves to be read.
use krnl.Base.{ℕ, ◌≡◌, ◌≢◌, false, arith}
use krnl.Hefs.Sectors.{Sector}
use krnl.Hefs.Drive.{Drive, sector_of, drv_output}

pub sectors-drv_output_other :
    (d : Drive) (a b : ℕ) (s : Sector)
    → sector_of b ≢ sector_of a
    → (drv_output d a s).sectors (sector_of b) ≡ d.sectors (sector_of b)
unfolding drv_output
sectors-drv_output_other d a b s apart = ground arith

pub sectors-drv_output_self :
    (d : Drive) (a : ℕ) (s : Sector)
    → d.packet_read_only ≡ false
    → a ≢ 0
    → (drv_output d a s).sectors (sector_of a) ≡ s
unfolding drv_output
sectors-drv_output_self d a s writable there = ground arith

pub drv_output_read_only :
    (d : Drive) (a : ℕ) (s : Sector) → (drv_output d a s).packet_read_only ≡ d.packet_read_only
unfolding drv_output
drv_output_read_only d a s = ground arith

pub drv_output_lba_start :
    (d : Drive) (a : ℕ) (s : Sector) → (drv_output d a s).lba_start ≡ d.lba_start
unfolding drv_output
drv_output_lba_start d a s = ground arith

pub drv_output_error :
    (d : Drive) (a : ℕ) (s : Sector)
    → d.packet_read_only ≡ false
    → a ≢ 0
    → (drv_output d a s).error ≡ 0
unfolding drv_output
drv_output_error d a s writable there = ground arith
