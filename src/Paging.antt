-- ===== src/Paging.antt =====
-- The page tables of private/minkernel/HALKit/AMD64/HalPagingMgr.cpp: four levels of 512 words in the
-- memory of the frame allocator, which gives the frames for new tables. The value of `cr3` is an
-- argument; flushing the translation buffer changes nothing here.
pub mod Entries
use krnl.Base.{
  ℕ, zero, suc, ◌+◌, ◌-◌, ◌*◌, ◌/◌, ◌%◌, ◌^◌, Bool, true, false, not, ◌&&◌, ◌||◌, ltb, leb, ◌==◌,
  if◌then◌else◌,
}
use krnl.Base.Bits.{bit_and, bit_or}
use krnl.Base.Memory.{Memory, load64, store64}
use krnl.Physical.{Pmm, page_size, word_mod, pmmi_alloc_frame}

-- The low bit of an entry, and the bit that marks a large page.
abbrev pub is_present : ℕ → Bool
is_present entry = not (entry % 2 == 0)

abbrev pub is_large : ℕ → Bool
is_large entry = not (entry / 128 % 2 == 0)

-- The address that an entry holds, without the low `k` bits.
abbrev pub clear_low : ℕ → ℕ → ℕ
clear_low k entry = entry / 2 ^ k * 2 ^ k

-- `entry & kAddrMask`.
abbrev pub address_of : ℕ → ℕ
address_of entry = entry % 2 ^ 52 / 2 ^ 12 * 2 ^ 12

abbrev pub entry_at : ℕ → ℕ → ℕ → ℕ
entry_at table virt shift = table + 8 * (virt / 2 ^ shift % 512)

-- `mm_get_page_addr`.
pub mm_get_page_addr : Memory → ℕ → ℕ → ℕ
mm_get_page_addr m cr3 virt =
    let pml4e = load64 m (entry_at (clear_low 12 cr3) virt 39) in
    if not (is_present pml4e)
    then 0
    else (let pdpte = load64 m (entry_at (clear_low 12 pml4e) virt 30) in
        if not (is_present pdpte)
        then 0
        else if is_large pdpte
        then clear_low 30 (address_of pdpte) + virt % 2 ^ 30
        else (let pde = load64 m (entry_at (clear_low 12 pdpte) virt 21) in
            if not (is_present pde)
            then 0
            else if is_large pde
            then clear_low 21 (address_of pde) + virt % 2 ^ 21
            else (let pte = load64 m (entry_at (clear_low 12 pde) virt 12) in
                if not (is_present pte) then 0 else address_of pte + virt % 2 ^ 12)))

-- `mm_memory_fence`: an error for a null or unmapped address.
unfoldable pub mm_memory_fence : Memory → ℕ → ℕ → ℕ
unfolding mm_get_page_addr
mm_memory_fence m cr3 virt = if virt == 0 || (mm_get_page_addr m cr3 virt == 0) then 56 else 0

-- The attributes that the parts of a large page inherit.
abbrev pub inherited : ℕ → ℕ
inherited entry =
    bit_or (bit_or (bit_and entry 0x1f) (bit_and entry 0x100)) (bit_and entry (2 ^ 63))

-- The entry of part `i` of a large page whose entries reach `2 ^ shift` bytes.
pub split_entry : ℕ → ℕ → ℕ → ℕ
split_entry entry shift i =
    bit_or (bit_or ((clear_low shift entry + i * (2 ^ shift / 512)) % word_mod) (inherited entry))
      (if ltb 21 shift then 0x80 else 0)

-- The loop that fills the split table: `n` entries from `i` on.
pub split_table : Memory → ℕ → ℕ → ℕ → ℕ → ℕ → Memory
unfolding split_entry
split_table m split entry shift i zero = m
split_table m split entry shift i (suc n) =
    split_table (store64 m (split + 8 * i) (split_entry entry shift i)) split entry shift (i + 1) n

abbrev pub table_perm : ℕ
table_perm = 7

-- One level of the walk: the entry at `slot` made to point to a table, if that can be done.
pub enter : Pmm → ℕ → ℕ → Bool → Bool × Pmm
unfolding split_table
enter p slot shift alloc =
    let entry = load64 p.mem slot in
    if not (is_present entry) || is_large entry
    then (if not alloc
        then (false, p)
        else (let (frame, q) = pmmi_alloc_frame p in
            if frame == 0
            then (false, q)
            else (let filled =
                  if is_present entry
                  then split_table q.mem frame (load64 q.mem slot) shift 0 512
                  else q.mem in
                (true, record q { mem = store64 filled slot (bit_or frame table_perm) }))))
    else (true, record p { mem = store64 p.mem slot (bit_or entry table_perm) })

-- The loop of `mm_walk_page` over the levels left, down to the slot of the page.
pub walk_from : ℕ → Pmm → ℕ → ℕ → Bool → ℕ × Pmm
unfolding enter
walk_from zero p table virt alloc = (entry_at table virt 12, p)
walk_from (suc level) p table virt alloc =
    let shift = 12 + 9 * suc level in
    let slot = entry_at table virt shift in
    let (entered, q) = enter p slot shift alloc in
    let rest = walk_from level q (clear_low 12 (load64 q.mem slot)) virt alloc in
    if entered then rest else (0, q)

-- `mm_walk_page`: the slot, 0 for null.
pub mm_walk_page : Pmm → ℕ → ℕ → Bool → ℕ × Pmm
unfolding walk_from
mm_walk_page p root virt alloc =
    if root == 0 then (0, p) else walk_from 3 p (clear_low 12 root) virt alloc

-- The flags of a page: present, writable, user, no execute, cache disable, write through.
pub record PageFlags : Type 0 where
  pub present : Bool
  pub wr : Bool
  pub user : Bool
  pub nx : Bool
  pub pcd : Bool
  pub pwt : Bool

-- The bits of the flags: those above the lowest, in this order.
abbrev pub flags_of : ℕ → PageFlags
flags_of flags = record {
  present = not (flags / 2 % 2 == 0);
  wr = not (flags / 4 % 2 == 0);
  user = not (flags / 8 % 2 == 0);
  nx = not (flags / 16 % 2 == 0);
  pcd = not (flags / 32 % 2 == 0);
  pwt = not (flags / 64 % 2 == 0);
}

abbrev pub flag : Bool → ℕ → ℕ
flag b value = if b then value else 0

-- The entry that the fields of `PTE` make up.
pub page_entry : ℕ → PageFlags → ℕ
page_entry phys f =
    flag f.present 1
    + flag f.wr 2
    + flag f.user 4
    + flag f.pwt 8
    + flag f.pcd 16
    + phys / 2 ^ 12 % 2 ^ 40 * 2 ^ 12
    + flag f.nx (2 ^ 63)

-- `mm_map_page_in`, with its status.
pub mm_map_page_in : Pmm → ℕ → ℕ → ℕ → ℕ → ℕ × Pmm
unfolding mm_walk_page page_entry
mm_map_page_in p root virt phys flags =
    if phys == 0
    then (56, p)
    else if not (phys % page_size == 0)
    then (56, p)
    else (let (slot, q) = mm_walk_page p root virt true in
        if slot == 0
        then (56, q)
        else (0, record q { mem = store64 q.mem slot (page_entry phys (flags_of flags)) }))

-- `mm_map_page`, which maps into the address space of `cr3`.
unfoldable pub mm_map_page : Pmm → ℕ → ℕ → ℕ → ℕ → ℕ × Pmm
unfolding mm_map_page_in
mm_map_page p cr3 virt phys flags = mm_map_page_in p cr3 virt phys flags

-- `mm_unmap_page`: the frame that was mapped, 0 for none.
pub mm_unmap_page : Pmm → ℕ → ℕ → ℕ × Pmm
unfolding mm_walk_page
mm_unmap_page p cr3 virt =
    let (slot, q) = mm_walk_page p cr3 virt false in
    if slot == 0 || not (is_present (load64 q.mem slot))
    then (0, q)
    else (address_of (load64 q.mem slot), record q { mem = store64 q.mem slot 0 })
