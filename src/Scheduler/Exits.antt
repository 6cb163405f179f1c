-- ===== src/Scheduler/Exits.antt =====
-- What removing a process does to the team, and to the next spawn.
use krnl.Base.{
  ℕ, suc, ◌≤◌, ◌<◌, ◌≡◌, ◌≢◌, refl, sym, ap, subst, ◌∙◌, Bool, Bool-cases, true, false,
  if◌then◌else◌, ◌==◌, ==→eq, ==→ne, inl, inr, List, [], ◌∷◌, ◌++◌, some, arith, length, get_elem?,
  get_elem?-set_self, get_elem?-set_ne, set,
}
use krnl.Base.Int.{ℤ, pos, dec}
use krnl.Process.{UserProcess, running, finished, process_limit_per_team, name_len, is_invalid}
use krnl.Scheduler.{
  Release, heap_tree, file_tree, page_dir, block, when_valid, Team, spawned, spawn, remove, removed,
  exit_process, exit_releases, is_dylib,
}
use krnl.Scheduler.Slots.{IsFresh, spawn-IsFresh}

-- The process that is left in the slot.
pub record IsGone (q : UserProcess) : Type 0 where
  pub status : q.status ≡ finished
  pub id : q.process_id ≡ pos 0
  pub no_trees : (q.heap_tree ≡ 0) × (q.file_tree ≡ 0)
  pub no_image : (q.image_code ≡ 0) × (q.image_blob ≡ 0)
  pub no_stack : q.stack_frame ≡ 0

-- What becomes of pointers that are looked at in turn, with the releases before and after: a null
-- pointer is left, and so is one that is not valid by then; any other is released.
pub data Freed (is_valid : List Release → ℕ → Bool)
    : List Release → List ℕ → List Release → Type 0 where
  all : {before : List Release} → Freed is_valid before [] before
  null :
      {before after : List Release} {ptrs : List ℕ}
      → Freed is_valid before ptrs after
      → Freed is_valid before (0 ∷ ptrs) after
  stale :
      {before after : List Release} {ptrs : List ℕ} {ptr : ℕ}
      → is_valid before ptr ≡ false
      → Freed is_valid before ptrs after
      → Freed is_valid before (ptr ∷ ptrs) after
  freed :
      {before after : List Release} {ptrs : List ℕ} {ptr : ℕ}
      → ptr ≢ 0
      → is_valid before ptr ≡ true
      → Freed is_valid (before ++ block ptr ∷ []) ptrs after
      → Freed is_valid before (ptr ∷ ptrs) after

when_valid-Freed :
    (is_valid : List Release → ℕ → Bool) (before after : List Release) (ptr : ℕ) (ptrs : List ℕ)
    → Freed is_valid (when_valid is_valid ptr before) ptrs after
    → Freed is_valid before (ptr ∷ ptrs) after
when_valid-Freed is_valid before after ptr ptrs rest = elim (Bool-cases (ptr == 0)) [
  | inl none_there ↦
      subst (λ q. Freed is_valid before (q ∷ ptrs) after) (sym (==→eq ptr 0 none_there))
        (null (subst (λ b. Freed is_valid b ptrs after) (ground (arith, none_there)) rest))
  | inr there ↦ elim (Bool-cases (is_valid before ptr)) [
    | inl good ↦
        freed (==→ne ptr 0 there) good
          (subst (λ b. Freed is_valid b ptrs after) (ground (arith, there, good)) rest)
    | inr bad ↦ stale bad (subst (λ b. Freed is_valid b ptrs after) (ground (arith, bad)) rest)
  ]
]

-- The memory that a process leaves: both trees, the page directory if there is one, and then the code,
-- the blob and the stack frame.
pub record Released (is_valid : List Release → ℕ → Bool) (p : UserProcess) (rs : List Release)
    : Type 0 where
  pub owned : List Release
  pub no_dir : p.vm_register ≡ 0 → owned ≡ heap_tree p.heap_tree ∷ file_tree p.file_tree ∷ []
  pub dir :
      p.vm_register ≢ 0
      → owned ≡ heap_tree p.heap_tree ∷ file_tree p.file_tree ∷ page_dir p.vm_register ∷ []
  pub blocks : Freed is_valid owned (p.image_code ∷ p.image_blob ∷ p.stack_frame ∷ []) rs

exit_releases-Released :
    (is_valid : List Release → ℕ → Bool) (p : UserProcess)
    → Released is_valid p (exit_releases is_valid p)
unfolding exit_releases
exit_releases-Released is_valid p =
    let trees : List Release = heap_tree p.heap_tree ∷ file_tree p.file_tree ∷ [] in
    record {
      owned = if p.vm_register == 0 then trees else trees ++ page_dir p.vm_register ∷ [];
      no_dir = λ e. ground (arith, e);
      dir = λ e. ground (arith, e);
      blocks = when_valid-Freed is_valid _ _ p.image_code _ (
          when_valid-Freed is_valid _ _ p.image_blob _
            (when_valid-Freed is_valid _ _ p.stack_frame _ all));
    }

exit-IsGone :
    (fini : UserProcess → Bool) (p : UserProcess) (code : ℤ)
    → is_dylib p.kind ≡ false
    → (q : UserProcess) × (exit_process fini p code ≡ some q)
      × IsGone q
      × (q.name ≡ p.name)
      × (q.kind ≡ p.kind)
      × (q.has_parent ≡ p.has_parent)
unfolding exit_process
exit-IsGone fini p code plain = (
  record p {
    status = finished;
    last_exit_code = code;
    heap_tree = 0;
    file_tree = 0;
    image_blob = 0;
    image_code = 0;
    stack_frame = 0;
    process_id = pos 0;
  },
  ground arith,
  record {
    status = refl;
    id = refl;
    no_trees = (refl, refl);
    no_image = (refl, refl);
    no_stack = refl;
  },
  refl,
  refl,
  refl,
)

remove-exit :
    (fini : UserProcess → Bool) (is_valid : List Release → ℕ → Bool) (t : Team) (n : ℕ)
    (p q : UserProcess)
    → n ≤ process_limit_per_team
    → get_elem? t.processes n ≡ some p
    → is_invalid p.status ≡ false
    → p.has_parent ≡ true
    → exit_process fini p (pos 0) ≡ some q
    → remove fini is_valid t (pos n)
      ≡ removed
          (record t { processes = set t.processes n q; process_cur = dec t.process_cur })
          (exit_releases is_valid p)
unfolding remove
remove-exit fini is_valid t n p q small at known parent e = ground arith

module _ (fini : UserProcess → Bool) (is_valid : List Release → ℕ → Bool) (t : Team) (n : ℕ)
    (p : UserProcess) where
  -- `Remove` of a slot that holds a program of the team whose status is not invalid, whatever else it is: the
  -- process is finished, with no identifier, image, stack or trees; its trees and its page directory are
  -- released, then of its code, blob and stack frame each that is there and still valid; the
  -- count of the team falls by one; no other slot changes.
  pub remove-IsGone :
      n < length t.processes
      → n ≤ process_limit_per_team
      → get_elem? t.processes n ≡ some p
      → is_invalid p.status ≡ false
      → p.has_parent ≡ true
      → is_dylib p.kind ≡ false
      → (u : Team) × (q : UserProcess) × (rs : List Release) × (remove fini is_valid t (pos n)
          ≡ removed u rs)
        × Released is_valid p rs
        × (u.process_cur ≡ dec t.process_cur)
        × (get_elem? u.processes n ≡ some q)
        × IsGone q
        × (q.name ≡ p.name)
        × (q.kind ≡ p.kind)
        × (q.has_parent ≡ p.has_parent)
        × ((j : ℕ) → n ≢ j → get_elem? u.processes j ≡ get_elem? t.processes j)
  remove-IsGone slot small at known parent plain =
      let gone = exit-IsGone fini p (pos 0) plain in
      (
        record t { processes = set t.processes n gone.0; process_cur = dec t.process_cur },
        gone.0,
        exit_releases is_valid p,
        remove-exit fini is_valid t n p gone.0 small at known parent gone.1,
        exit_releases-Released is_valid p,
        refl,
        get_elem?-set_self t.processes n gone.0 slot,
        gone.2,
        gone.3,
        gone.4,
        gone.5,
        λ j ne. get_elem?-set_ne t.processes gone.0 ne,
      )

-- Removing a slot twice counts it twice: a finished process is not told from a running one, and the
-- count ends two lower.
pub remove_twice :
    (fini : UserProcess → Bool) (is_valid : List Release → ℕ → Bool) (t : Team) (n : ℕ)
    (p : UserProcess)
    → n < length t.processes
    → n ≤ process_limit_per_team
    → get_elem? t.processes n ≡ some p
    → is_invalid p.status ≡ false
    → p.has_parent ≡ true
    → is_dylib p.kind ≡ false
    → (u v : Team) × (q : UserProcess) × (rs : List Release) × (remove fini is_valid t (pos n)
        ≡ removed u rs)
      × (remove fini is_valid u (pos n) ≡ removed v (exit_releases is_valid q))
      × (v.process_cur ≡ dec (dec t.process_cur))
remove_twice fini is_valid t n p slot small at known parent plain =
    let (u, q, rs, done, _, count, at_q, gone, _, kind, owner, _) =
      remove-IsGone fini is_valid t n p slot small at known parent plain in
    let (q', done', _, _, _, _) = exit-IsGone fini q (pos 0) (ap is_dylib kind ∙ plain) in
    (
      u,
      record u { processes = set u.processes n q'; process_cur = dec u.process_cur },
      q,
      rs,
      done,
      remove-exit fini is_valid u n q q' small at_q (ap is_invalid gone.status) (owner ∙ parent)
          done',
      ap dec count,
    )

-- A spawn takes the slot at the count, and a removal lowers the count whichever slot it frees. So
-- after slot `i` of `n + 1` is removed, the next spawn takes over the last slot `n`, where a process
-- is still running, and slot `i` stays empty.
pub spawn-remove_overwrites :
    (fini : UserProcess → Bool) (is_valid : List Release → ℕ → Bool) (frame tree vm : ℕ) (t : Team)
    (i n : ℕ) (p live : UserProcess) (c : ℕ) (cs : List ℕ) (code image image_sz : ℕ)
    → i ≢ n
    → n < length t.processes
    → i < length t.processes
    → length t.processes ≤ process_limit_per_team
    → t.process_cur ≡ pos (suc n)
    → get_elem? t.processes i ≡ some p
    → is_invalid p.status ≡ false
    → p.has_parent ≡ true
    → is_dylib p.kind ≡ false
    → get_elem? t.processes n ≡ some live
    → live.status ≡ running
    → code ≢ 0
    → frame ≢ 0
    → tree ≢ 0
    → length (c ∷ cs) ≤ name_len
    → length (c ∷ cs) ≤ length live.name
    → (u v : Team) × (q gone : UserProcess) × (rs : List Release) × (remove fini is_valid t (pos i)
        ≡ removed u rs)
      × Released is_valid p rs
      × (get_elem? u.processes n ≡ some live)
      × (spawn frame tree vm u (some (c ∷ cs)) code image image_sz ≡ spawned (pos n) v)
      × (get_elem? v.processes n ≡ some q)
      × IsFresh q (pos n) code image image_sz frame
      × (get_elem? v.processes i ≡ some gone)
      × IsGone gone
spawn-remove_overwrites fini is_valid frame tree vm t i n p live c cs code image image_sz ne slot
      slot' small cur at known parent plain at_n on has_code has_frame has_tree short fits =
    let (u, gone, rs, done, released, count, at_i, is_gone, _, _, _, kept) =
      remove-IsGone fini is_valid t i p slot' (omega arith) at known parent plain in
    let (v, q, ran, _, at_q, fresh, _, rest) =
      spawn-IsFresh frame tree vm u c cs code image image_sz n live has_code has_frame has_tree
        (omega arith) short fits (count ∙ ap dec cur) (kept n ne ∙ at_n) in
    (
      u,
      v,
      q,
      gone,
      rs,
      done,
      released,
      kept n ne ∙ at_n,
      ran,
      at_q,
      fresh,
      rest i (λ e. ne (sym e)) ∙ at_i,
      is_gone,
    )
