-- ===== src/Hefs/Invariant.antt =====
-- What every update of the files of a directory keeps, and that it ends.
use krnl.Base.{
  ℕ, ◌+◌, ◌*◌, ◌^◌, ◌≤◌, ◌<◌, ◌≡◌, ◌≢◌, ◌⊎◌, inl, inr, sym, ◌∙◌, subst, Bool, true, false, ◌||◌,
  List, none, some, arith, ltb, Bool-cases,
}
use krnl.Hefs.Nodes.{BootNode, IndexNode}
use krnl.Hefs.Drive.{Drive, read_directory}
use krnl.Hefs.Directories.{Updated}
use krnl.Hefs.Files.{wanted_slice, past_update_in, update_at, update_in_status}
use krnl.Hefs.Walks.{Reaches-judge, Reaches_position, scan_found, scan_ends}
use krnl.Hefs.Verdicts.{judge_update_here, past_update_in_inside, past_update_in_over}
use krnl.Hefs.Exclusive.{row_at, InRegion, Exclusive}
use krnl.Hefs.Words.{hash_64}
use krnl.Hefs.Updates.{
  Found-cases, judge, bad_regions, scanned, update_bad, update_unfinished, update_nowhere,
  update_found, update_at_create, update_at_delete, update_at-Exclusive,
}

Exclusive-error :
    (d : Drive) (boot : BootNode) (e : ℕ)
    → Exclusive d boot
    → Exclusive (record d { error = e }) boot
unfolding read_directory
Exclusive-error d boot e x = record {
  writable = x.writable;
  boot_there = x.boot_there;
  boot_apart = x.boot_apart;
  region_small = x.region_small;
  nodes_apart = x.nodes_apart;
  nodes_small = x.nodes_small;
  owned = x.owned;
}

row_cases : (boot : BootNode) (k : ℕ) → InRegion boot k ⊎ (boot.end_ind < row_at boot k + 512)
row_cases boot k = ground arith

regions_good :
    (boot : BootNode)
    → ((ltb boot.end_ind boot.start_ind || ltb boot.end_in boot.start_in)
        || ltb boot.end_block boot.start_block)
      ≡ false
    → (boot.start_ind ≤ boot.end_ind) × (boot.start_in ≤ boot.end_in)
regions_good boot e = (ground (arith, e), ground (arith, e))

-- Updates keep the index nodes of files apart: after a creation or a deletion, whatever its answer, each
-- index node that a slice of a row names is named by no other slice, and lies before the next one to
-- be given out. The rows are those before the last: Format lets the last one share its sector with the first
-- index node, so that it must not hold the directory that is updated.
pub update_in_status-Exclusive :
    (steps : ℕ) (d : Drive) (boot : BootNode) (dir_name : List ℕ) (node : IndexNode) (remove : Bool)
    (u : Updated)
    → Exclusive d boot
    → ((k : ℕ)
        → row_at boot k ≤ boot.end_ind
        → boot.end_ind < row_at boot k + 512
        → (read_directory d (row_at boot k)).hash_path ≢ hash_64 dir_name)
    → update_in_status steps d boot dir_name node remove ≡ some u
    → Exclusive u.drive u.boot
update_in_status-Exclusive steps d boot dir_name node remove u x last e =
    elim (Bool-cases (bad_regions steps d boot dir_name node remove)) [
      | inl bad ↦
          (let same : record { ok = false; boot = boot; drive = d } ≡ u =
              cc (update_bad steps d boot dir_name node remove bad, e) in
            subst (λ (v : Updated). Exclusive v.drive v.boot) same x)
      | inr good ↦ elim (Found-cases (scanned steps d boot dir_name node remove)) [
        | inl f ↦ absurd (cc (update_unfinished steps d boot dir_name node remove good f, e))
        | inr (inl f) ↦
            (let same : record { ok = false; boot = boot; drive = record d { error = 35 } } ≡ u =
                cc (update_nowhere steps d boot dir_name node remove good f, e) in
              subst (λ (v : Updated). Exclusive v.drive v.boot) same (Exclusive-error d boot 35 x))
        | inr (inr (p, f)) ↦
            (let (region, room) = regions_good boot good in
              let (k, r) =
                scan_found (judge steps d boot dir_name node remove) (past_update_in boot) steps
                  boot.start_ind p f in
              let (place, inside) =
                Reaches_position (judge steps d boot dir_name node remove) (past_update_in boot)
                  boot.end_ind (past_update_in_inside boot) x.region_small region r in
              let (matches, index, wanted) =
                judge_update_here d dir_name node.hash_path remove p (
                  Reaches-judge (judge steps d boot dir_name node remove) (past_update_in boot)
                    r) in
              let before : InRegion boot k = elim (row_cases boot k) [
                | inl early ↦ early
                | inr late ↦ absurd (
                    last k (omega (arith, place, inside)) late (
                      subst (λ q. (read_directory d q).hash_path ≡ hash_64 dir_name) place
                        (sym matches)))
              ] in
              update_at-Exclusive d boot node remove k index u x before room
                (subst (λ q. wanted_slice d node.hash_path remove (read_directory d q) ≡ some index)
                  place wanted)
                (subst (λ q. update_at d boot node remove q ≡ some u) place
                  (sym (update_found steps d boot dir_name node remove p good f) ∙ e)))
      ]
    ]

update_at_ends :
    (d : Drive) (boot : BootNode) (node : IndexNode) (remove : Bool) (p index : ℕ)
    → wanted_slice d node.hash_path remove (read_directory d p) ≡ some index
    → update_at d boot node remove p ≢ none
update_at_ends d boot node true p index wanted e =
    cc (update_at_delete d boot node p index wanted, e)
update_at_ends d boot node false p index wanted e =
    cc (update_at_create d boot node p index wanted, e)

-- The update ends within the steps that it takes to pass the region, when the end of the region is
-- below the end of the positions.
pub update_in_status_ends :
    (steps : ℕ) (d : Drive) (boot : BootNode) (dir_name : List ℕ) (node : IndexNode) (remove : Bool)
    → boot.end_ind + 512 < 2 ^ 64
    → boot.end_ind < boot.start_ind + 512 * steps
    → update_in_status steps d boot dir_name node remove ≢ none
update_in_status_ends steps d boot dir_name node remove small enough e =
    elim (Bool-cases (bad_regions steps d boot dir_name node remove)) [
      | inl bad ↦ cc (update_bad steps d boot dir_name node remove bad, e)
      | inr good ↦ elim (Found-cases (scanned steps d boot dir_name node remove)) [
        | inl f ↦
            scan_ends (judge steps d boot dir_name node remove) (past_update_in boot) boot.end_ind
              (past_update_in_over boot) small steps boot.start_ind (regions_good boot good).0
              enough f
        | inr (inl f) ↦ cc (update_nowhere steps d boot dir_name node remove good f, e)
        | inr (inr (p, f)) ↦
            (let (k, r) =
                scan_found (judge steps d boot dir_name node remove) (past_update_in boot) steps
                  boot.start_ind p f in
              let (matches, index, wanted) =
                judge_update_here d dir_name node.hash_path remove p (
                  Reaches-judge (judge steps d boot dir_name node remove) (past_update_in boot)
                    r) in
              update_at_ends d boot node remove p index wanted
                (sym (update_found steps d boot dir_name node remove p good f) ∙ e))
      ]
    ]
