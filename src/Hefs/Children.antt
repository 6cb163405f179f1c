-- ===== src/Hefs/Children.antt =====
-- The child of a new directory, and the write that balancing makes at its position.
use krnl.Base.{ℕ, ◌≡◌, ◌≢◌, refl, sym, ap, ◌∙◌, true, false, arith, ◌==◌, Bool-cases, inl, inr}
use krnl.Hefs.Nodes.{BootNode, Directory}
use krnl.Hefs.Sectors.{as_directory, directory_sector, directory_checksum, seal_directory}
use krnl.Hefs.Drive.{Drive, sector_of, drv_input, read_directory, write_directory}
use krnl.Hefs.Tree.{
  reparent, swap_children, red, black, rotate_pair, rotate_tree, recolor, balance_one,
}
use krnl.Hefs.Transfers.{sectors-drv_output_other, sectors-drv_output_self, drv_output_read_only}

pub read-write_self :
    (d : Drive) (a : ℕ) (dir : Directory)
    → d.packet_read_only ≡ false
    → a ≢ 0
    → read_directory (write_directory d a dir) a ≡ dir
unfolding read_directory as_directory
read-write_self d a dir writable there =
    ap as_directory (sectors-drv_output_self d a (directory_sector dir) writable there)

pub read-write_other :
    (d : Drive) (a b : ℕ) (dir : Directory)
    → sector_of b ≢ sector_of a
    → read_directory (write_directory d a dir) b ≡ read_directory d b
unfolding read_directory
read-write_other d a b dir apart =
    ap as_directory (sectors-drv_output_other d a b (directory_sector dir) apart)

reparent_parent :
    (d : Drive) (lba parent checksum : ℕ)
    → d.packet_read_only ≡ false
    → lba ≢ 0
    → (read_directory (reparent d lba parent checksum) lba).parent ≡ parent
unfolding reparent
reparent_parent d lba parent checksum writable there =
    ap (λ e. e.parent)
      (read-write_self (drv_input d) lba
        (record (read_directory d lba) { parent = parent; checksum = checksum }) writable there)

reparent_read_only :
    (d : Drive) (lba parent checksum : ℕ)
    → (reparent d lba parent checksum).packet_read_only ≡ d.packet_read_only
unfolding reparent
reparent_read_only d lba parent checksum =
    drv_output_read_only (drv_input d) lba
      (directory_sector (record (read_directory d lba) { parent = parent; checksum = checksum }))

swap_read_only :
    (d : Drive) (start : ℕ) (cur sibling : Directory)
    → (swap_children d start cur sibling).packet_read_only ≡ d.packet_read_only
unfolding swap_children
swap_read_only d start cur sibling =
    drv_output_read_only
      (write_directory d cur.parent (seal_directory (record sibling { child = cur.child }))) start
      (directory_sector (seal_directory (record cur { child = sibling.child })))
    ∙ drv_output_read_only d cur.parent
        (directory_sector (seal_directory (record sibling { child = cur.child })))

rotate_pair_child :
    (d : Drive) (start : ℕ) (cur sibling : Directory)
    → d.packet_read_only ≡ false
    → cur.child ≢ 0
    → (read_directory (rotate_pair d start cur sibling) cur.child).parent ≡ start
unfolding rotate_pair
rotate_pair_child d start cur sibling writable there =
    let checksum = directory_checksum (seal_directory (record sibling { child = cur.child })) in
    let swapped = swap_children d start cur sibling in
    reparent_parent (reparent swapped sibling.child cur.parent checksum) cur.child start checksum
      (reparent_read_only swapped sibling.child cur.parent checksum
        ∙ swap_read_only d start cur sibling
        ∙ writable)
      there

rotate_tree_child :
    (d : Drive) (start : ℕ)
    → d.packet_read_only ≡ false
    → start ≢ 0
    → (read_directory d start).hash_path ≢ 0
    → (read_directory d (read_directory d start).prev).hash_path ≢ 0
    → (read_directory d start).child ≢ 0
    → (read_directory (rotate_tree d start) (read_directory d start).child).parent ≡ start
unfolding rotate_tree
rotate_tree_child d start writable there hash sibling child =
    let first : (start == 0) ≡ false = ground (arith, there) in
    let second : ((read_directory d start).hash_path == 0) ≡ false = ground (arith, hash) in
    let third : ((read_directory d (read_directory d start).prev).hash_path == 0) ≡ false =
      ground (arith, sibling) in
    rw (rotate_tree, first, second, third)
      (rotate_pair_child (drv_input d) start (read_directory d start)
        (read_directory d (read_directory d start).prev) writable child)

-- The drive and the root as a pass over the first directory finds them.
abbrev rooted : Drive → ℕ → Directory
rooted d start = record (read_directory d start) { color = black }

abbrev with_root : Drive → ℕ → Drive
with_root d start = write_directory (drv_input d) start (rooted d start)

recolor_root :
    (boot : BootNode) (d : Drive)
    → (read_directory d boot.start_ind).child ≢ 0
    → recolor boot (drv_input d) boot.start_ind (read_directory d boot.start_ind) ≡ (
      rotate_tree (with_root d boot.start_ind) boot.start_ind,
      record (rooted d boot.start_ind) { color = red },
    )
unfolding recolor
recolor_root boot d child =
    let at_root : (boot.start_ind == boot.start_ind) ≡ true = ground arith in
    let no_leaf : ((read_directory d boot.start_ind).child == 0) ≡ false = ground (arith, child) in
    rw (recolor, at_root, no_leaf) refl

balance_one_root :
    (boot : BootNode) (d : Drive) (b : ℕ)
    → (read_directory d boot.start_ind).child ≢ 0
    → sector_of b ≢ sector_of boot.start_ind
    → read_directory (balance_one boot d boot.start_ind) b
      ≡ read_directory (rotate_tree (with_root d boot.start_ind) boot.start_ind) b
unfolding balance_one
balance_one_root boot d b child apart =
    let dir = record (rooted d boot.start_ind) { color = red } in
    elim (Bool-cases (directory_checksum dir == dir.checksum)) [
      | inl same ↦ rw (balance_one, recolor_root boot d child, same) refl
      | inr other ↦
          rw (balance_one, recolor_root boot d child, other)
            (read-write_other (rotate_tree (with_root d boot.start_ind) boot.start_ind)
              boot.start_ind b (seal_directory dir) apart)
    ]

-- A pass of the balancing over the first directory writes at the position of its child, wherever on
-- the disk that is: what is read as a directory there has the first directory as its parent. The drive can be
-- written, the first directory has a path, itself as its neighbour, and its child in another sector.
pub balance_one_child :
    (boot : BootNode) (d : Drive)
    → d.packet_read_only ≡ false
    → boot.start_ind ≢ 0
    → (read_directory d boot.start_ind).hash_path ≢ 0
    → (read_directory d boot.start_ind).prev ≡ boot.start_ind
    → (read_directory d boot.start_ind).child ≢ 0
    → sector_of (read_directory d boot.start_ind).child ≢ sector_of boot.start_ind
    → (read_directory
        (balance_one boot d boot.start_ind)
        (read_directory d boot.start_ind).child).parent
      ≡ boot.start_ind
balance_one_child boot d writable there hash prev child apart =
    let root = rooted d boot.start_ind in
    let drive = with_root d boot.start_ind in
    let read : read_directory drive boot.start_ind ≡ root =
      read-write_self (drv_input d) boot.start_ind root writable there in
    let same_child : (read_directory drive boot.start_ind).child
        ≡ (read_directory d boot.start_ind).child =
      ap (λ e. e.child) read in
    let same_prev : (read_directory drive boot.start_ind).prev ≡ boot.start_ind =
      ap (λ e. e.prev) read ∙ prev in
    let same_hash : (read_directory drive boot.start_ind).hash_path
        ≡ (read_directory d boot.start_ind).hash_path =
      ap (λ e. e.hash_path) read in
    ap (λ e. e.parent) (balance_one_root boot d (read_directory d boot.start_ind).child child apart)
    ∙ ap (λ c. (read_directory (rotate_tree drive boot.start_ind) c).parent) (sym same_child)
    ∙ rotate_tree_child drive boot.start_ind
        (drv_output_read_only (drv_input d) boot.start_ind (directory_sector root) ∙ writable) there
        (λ e. hash (sym same_hash ∙ e))
        (λ e.
          hash (sym same_hash ∙ ap (λ q. (read_directory drive q).hash_path) (sym same_prev) ∙ e))
        (λ e. child (sym same_child ∙ e))
