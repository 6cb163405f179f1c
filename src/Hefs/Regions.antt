-- ===== src/Hefs/Regions.antt =====
-- The regions that a formatted disk is laid out in.
use krnl.Base.{
  ℕ, ◌+◌, ◌-◌, ◌*◌, ◌/◌, ◌%◌, ◌^◌, ◌≤◌, ◌<◌, ◌≡◌, ◌≢◌, ◌⊎◌, inl, inr, refl, false, List, arith,
}
use native.Mathlib.Nat.{div-le_self}
use krnl.Hefs.Nodes.{BootNode}
use krnl.Hefs.Drive.{Drive, sector_of}
use krnl.Hefs.Exclusive.{slice_at, InRegion, Exclusive}
use krnl.Hefs.Format.{new_boot, drive_size}

-- The last position of the directory region that is a multiple of 512 bytes after its first.
unfoldable pub last_row : BootNode → ℕ
last_row boot = boot.start_ind + 512 * ((boot.end_ind - boot.start_ind) / 512)

-- The bounds of the regions of a boot node: in order, each starting where the one before ends.
pub record Ordered (boot : BootNode) : Type 0 where
  pub directories : boot.start_ind ≤ boot.end_ind
  pub nodes_next : boot.start_in ≡ boot.end_ind
  pub nodes : boot.start_in ≤ boot.end_in
  pub blocks_next : boot.start_block ≡ boot.end_in

remainder_cases : (n : ℕ) → (n % 512 ≡ 511) ⊎ (n % 512 ≢ 511)
remainder_cases n = ground arith

-- Formatting a drive whose positions do not wrap, on a partition that starts at a sector, lays the regions
-- out in order, behind the boot node; yet unless the length of the directory region leaves a remainder of
-- 511 by 512, the last directory and the first index node lie in one sector.
pub new_boot-Ordered :
    (d : Drive) (flags : ℕ) (vol_name : List ℕ) (boot : BootNode)
    → d.lba_start % 512 ≡ 0
    → d.sector_sz ≢ 0
    → d.lba_start + 513 + 2 * drive_size d < 2 ^ 64
    → Ordered (new_boot d flags vol_name boot)
      × (d.lba_start < (new_boot d flags vol_name boot).start_ind)
      × ((drive_size d / d.sector_sz / 300 % 512 ≡ 511)
          ⊎ (sector_of (last_row (new_boot d flags vol_name boot))
              ≡ sector_of (new_boot d flags vol_name boot).start_in))
unfolding new_boot last_row
new_boot-Ordered d flags vol_name boot aligned size small =
    let count : ℕ = drive_size d / d.sector_sz in
    let fewer : count ≤ drive_size d = div-le_self (drive_size d) d.sector_sz in
    (
      record {
        directories = omega (arith, fewer);
        nodes_next = refl;
        nodes = omega (arith, fewer);
        blocks_next = refl;
      },
      omega (arith, fewer),
      elim (remainder_cases (count / 300)) [
        | inl full ↦ inl full
        | inr other ↦ inr (omega (arith, fewer, other))
      ],
    )

-- So the invariant of the files holds of a drive that was just formatted, with no file in any directory.
new_boot-Exclusive :
    (d : Drive) (flags : ℕ) (vol_name : List ℕ) (boot : BootNode)
    → d.packet_read_only ≡ false
    → d.lba_start ≢ 0
    → d.lba_start % 512 ≡ 0
    → d.sector_sz ≢ 0
    → d.lba_start + 1025 + 2 * drive_size d < 2 ^ 64
    → ((k i : ℕ)
        → InRegion (new_boot d flags vol_name boot) k
        → slice_at d (new_boot d flags vol_name boot) k i ≡ 0)
    → Exclusive d (new_boot d flags vol_name boot)
unfolding new_boot
new_boot-Exclusive d flags vol_name boot writable there aligned size small empty =
    let count : ℕ = drive_size d / d.sector_sz in
    let fewer : count ≤ drive_size d = div-le_self (drive_size d) d.sector_sz in
    record {
      writable = writable;
      boot_there = there;
      boot_apart = omega arith;
      region_small = omega (arith, fewer);
      nodes_apart = omega arith;
      nodes_small = omega (arith, fewer);
      owned = record {
        behind = λ k i inside held. absurd (held (empty k i inside));
        below = λ k i inside held. absurd (held (empty k i inside));
        single = λ k i k' i' inside inside' held same. absurd (held (empty k i inside));
      };
    }
