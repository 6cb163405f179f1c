-- ===== src/Physical/Chain.antt =====
-- The list of freed frames as it lies in memory: each frame holds the address of the next.
use krnl.Base.{ℕ, ◌+◌, ◌%◌, ◌≤◌, ◌<◌, ◌≡◌, ◌≢◌, ◌⊎◌, arith, List, [], ◌∷◌, All}
use krnl.Base.Memory.{Memory, fill, load64, store64, load64-store64_apart, load64-fill_apart}
use krnl.Physical.{page_size}

abbrev pub Chain : Memory → ℕ → List ℕ → Type 0
Chain m head [] = head ≡ 0
Chain m head (f ∷ fs) = (head ≡ f) × Chain m (load64 m f) fs

abbrev pub IsAligned : ℕ → Type 0
IsAligned a = a % page_size ≡ 0

-- An aligned frame of the region that starts at `base`, below `cursor`.
pub record IsFrame (base cursor f : ℕ) : Type 0 where
  pub aligned : IsAligned f
  pub above : base ≤ f
  pub below : f < cursor

abbrev pub Apart : ℕ → List ℕ → Type 0
Apart f = All (λ g. g ≢ f)

abbrev pub Distinct : List ℕ → Type 0
Distinct [] = Unit {0}
Distinct (f ∷ fs) = Apart f fs × Distinct fs

aligned_apart : (f g : ℕ) → IsAligned f → IsAligned g → g ≢ f → (g + 4096 ≤ f) ⊎ (f + 4096 ≤ g)
aligned_apart f g h k ne = ground arith

-- Writing into a frame that is not in the list leaves the list as it is.
pub Chain-fill :
    (base cursor : ℕ) (m : Memory) (frame v head : ℕ) (fs : List ℕ)
    → IsAligned frame
    → All (IsFrame base cursor) fs
    → Apart frame fs
    → Chain m head fs
    → Chain (fill m frame v page_size) head fs
Chain-fill base cursor m frame v head [] al fr ap c = c
Chain-fill base cursor m frame v head (f ∷ fs) al fr ap c = (
  c.0,
  rw (load64-fill_apart m frame v page_size f apart)
      (Chain-fill base cursor m frame v (load64 m f) fs al fr.1 ap.1 c.1),
)
  where
    apart : (f + 8 ≤ frame) ⊎ (frame + page_size ≤ f)
    apart = ground (arith, aligned_apart frame f al fr.0.aligned ap.0)

pub Chain-store64 :
    (base cursor : ℕ) (m : Memory) (frame v head : ℕ) (fs : List ℕ)
    → IsAligned frame
    → All (IsFrame base cursor) fs
    → Apart frame fs
    → Chain m head fs
    → Chain (store64 m frame v) head fs
Chain-store64 base cursor m frame v head [] al fr ap c = c
Chain-store64 base cursor m frame v head (f ∷ fs) al fr ap c = (
  c.0,
  rw (load64-store64_apart m frame v f apart)
      (Chain-store64 base cursor m frame v (load64 m f) fs al fr.1 ap.1 c.1),
)
  where
    apart : (f + 8 ≤ frame) ⊎ (frame + 8 ≤ f)
    apart = ground (arith, aligned_apart frame f al fr.0.aligned ap.0)
