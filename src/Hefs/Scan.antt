-- ===== src/Hefs/Scan.antt =====
-- The scan of the directory region, which every operation of
-- private/minkernel/src/FS/OpenHeFS+FileSystemParser.cpp makes: a step of 512 bytes from the start of
-- the region, until a directory is the one wanted, the scan gives up at one, or the next position is
-- past the end. Positions are 64 bits wide.
use krnl.Base.{ℕ, zero, suc, ◌+◌, ◌%◌, ◌^◌, Bool, List, [], ◌∷◌, Option, none, some, if◌then◌else◌}

pub data Verdict : Type 0 where
  here onward : Verdict
  give_up : Verdict

-- The outcome: the position found, no position, or no end within the steps given.
pub data Found : Type 0 where
  at : ℕ → Found
  nowhere : Found
  unfinished : Found

abbrev pub next_position : ℕ → ℕ
next_position start = (start + 512) % 2 ^ 64

unfoldable pub scan : (ℕ → Verdict) → (ℕ → Bool) → ℕ → ℕ → Found
scan judge past zero start = unfinished
scan judge past (suc steps) start =
    let rest = scan judge past steps (next_position start) in
    elim (judge start) [
      | here ↦ at start
      | give_up ↦ nowhere
      | onward ↦ (if past (next_position start) then nowhere else rest)
    ]

-- The first index of a list whose element passes a test.
unfoldable pub first_index : (ℕ → Bool) → List ℕ → Option ℕ
first_index test [] = none
first_index test (v ∷ vs) =
    if test v then some 0 else elim (first_index test vs) [ none ↦ none | some i ↦ some (suc i) ]
