-- ===== src/Pef/Interface.antt =====
-- The frames and pages that a loader asks the kernel for, and the kernel's own: those of Physical and
-- Paging.
use krnl.Base.{ℕ}
use krnl.Physical.{Pmm, pmmi_alloc_frame, pmmi_free_frame}
use krnl.Paging.{mm_map_page, mm_unmap_page}

pub record PageOps (S : Type 0) : Type 0 where
  pub alloc_frame : S → ℕ × S
  pub free_frame : S → ℕ → S
  pub map_page : S → ℕ → ℕ → ℕ → ℕ × S
  pub unmap_page : S → ℕ → ℕ × S

-- Those of the address space of `cr3`.
abbrev pub kernel_pages : ℕ → PageOps Pmm
kernel_pages cr3 = record {
  alloc_frame = pmmi_alloc_frame;
  free_frame = pmmi_free_frame;
  map_page = λ p virt phys flags. mm_map_page p cr3 virt phys flags;
  unmap_page = λ p virt. mm_unmap_page p cr3 virt;
}
