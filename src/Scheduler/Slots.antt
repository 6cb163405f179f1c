-- ===== src/Scheduler/Slots.antt =====
-- Which slot of the team `Spawn` fills, and with what.
use krnl.Base.{
  ℕ, zero, suc, ◌+◌, ◌≤◌, ◌<◌, ◌≡◌, ◌≢◌, ◌⊎◌, refl, ap, true, List, [], ◌∷◌, ◌++◌, Option, none,
  some, arith, ◌==◌, if◌then◌else◌, length, get_elem?, get_elem?-set_self, get_elem?-set_ne, set,
  drop,
}
use krnl.Base.Int.{ℤ, pos}
use krnl.Process.{UserProcess, running, standard, max_stack_sz, process_limit_per_team, name_len}
use krnl.Scheduler.{
  Team, SpawnOutcome, above, spawned, error_process_fault, overwrite, spawn, fill_slot,
}

-- The bytes of a new name stand before what is left of the old one.
pub overwrite-append :
    (new old : List ℕ) → length new ≤ length old → overwrite new old ≡ new ++ drop (length new) old
unfolding overwrite
overwrite-append [] old h = refl
overwrite-append (c ∷ cs) [] h = absurd (omega arith)
overwrite-append (c ∷ cs) (o ∷ old) h = ap (λ xs. c ∷ xs) (overwrite-append cs old (omega arith))

pub get_elem?-length :
    (ps : List UserProcess) (i : ℕ) (p : UserProcess) → get_elem? ps i ≡ some p → i < length ps
get_elem?-length [] i p e = cc
get_elem?-length (x ∷ xs) zero p e = omega arith
get_elem?-length (x ∷ xs) (suc i) p e = omega (arith, get_elem?-length xs i p e)

-- The process that a successful spawn leaves in its slot.
pub record IsFresh (q : UserProcess) (pid : ℤ) (code image image_sz frame : ℕ) : Type 0 where
  pub id : q.process_id ≡ pid
  pub is_on : q.status ≡ running
  pub affinity : q.affinity ≡ standard
  pub no_time : (q.p_time ≡ 0) × (q.r_time ≡ 0) × (q.u_time ≡ 0) × (q.s_time ≡ 0)
  pub image_is : (q.image_code ≡ code) × (q.image_blob ≡ image) × (q.image_blob_sz ≡ image_sz)
  pub stack : (q.stack_frame ≡ frame) × (q.stack_size ≡ max_stack_sz)
  pub tree : q.file_tree ≢ 0
  pub parent : q.has_parent ≡ true

module _ (frame tree vm : ℕ) where
  abbrev prepared : UserProcess → ℤ → List ℕ → UserProcess
  prepared p pid name = record p {
    name = overwrite name p.name;
    vm_register = vm;
    stack_frame = frame;
    stack_size = max_stack_sz;
    has_parent = true;
    process_id = pid;
    status = running;
    p_time = 0;
    affinity = standard;
    r_time = 0;
    u_time = 0;
    s_time = 0;
    file_tree = if p.file_tree == 0 then tree else p.file_tree;
  }

  fill_slot-prepared :
      (p : UserProcess) (pid : ℤ) (name : List ℕ)
      → frame ≢ 0
      → tree ≢ 0
      → length name ≤ name_len
      → fill_slot frame tree vm p pid name ≡ (pid, prepared p pid name)
  unfolding fill_slot
  fill_slot-prepared p pid name has_frame has_tree short = ground arith

module _ (frame tree vm : ℕ) (t : Team) (c : ℕ) (cs : List ℕ) (code image image_sz n : ℕ)
    (p : UserProcess) where
  abbrev with_image : UserProcess
  with_image = record p { image_code = code; image_blob = image; image_blob_sz = image_sz }

  spawn-fill_slot :
      code ≢ 0
      → n ≤ process_limit_per_team
      → t.process_cur ≡ pos n
      → get_elem? t.processes n ≡ some p
      → (r : ℤ × UserProcess) → fill_slot frame tree vm with_image (pos n) (c ∷ cs) ≡ r
      → spawn frame tree vm t (some (c ∷ cs)) code image image_sz
        ≡ spawned
            (r.0)
            (record t { process_cur = pos (n + 1); processes = set t.processes n (r.1) })
  unfolding spawn
  spawn-fill_slot has_code slot cur at r e = ground arith

  -- `Spawn` of a name that fits, with code, and with memory for the stack frame and the file tree,
  -- at a count that is a slot of the team: the slot at the count becomes a running process with its
  -- times at 0, its name begins with the new bytes and ends with what is left of the old ones, the
  -- count grows by one, the count is the identifier returned, and no other slot changes.
  pub spawn-IsFresh :
      code ≢ 0
      → frame ≢ 0
      → tree ≢ 0
      → n ≤ process_limit_per_team
      → length (c ∷ cs) ≤ name_len
      → length (c ∷ cs) ≤ length p.name
      → t.process_cur ≡ pos n
      → get_elem? t.processes n ≡ some p
      → (u : Team) × (q : UserProcess) × (spawn frame tree vm t (some (c ∷ cs)) code image image_sz
          ≡ spawned (pos n) u)
        × (u.process_cur ≡ pos (n + 1))
        × (get_elem? u.processes n ≡ some q)
        × IsFresh q (pos n) code image image_sz frame
        × (q.name ≡ (c ∷ cs) ++ drop (length (c ∷ cs)) p.name)
        × ((j : ℕ) → n ≢ j → get_elem? u.processes j ≡ get_elem? t.processes j)
  spawn-IsFresh has_code has_frame has_tree slot short fits cur at =
      let q : UserProcess = prepared frame tree vm with_image (pos n) (c ∷ cs) in
      (
        record t { process_cur = pos (n + 1); processes = set t.processes n q },
        q,
        spawn-fill_slot has_code slot cur at (pos n, q)
            (fill_slot-prepared frame tree vm with_image (pos n) (c ∷ cs) has_frame has_tree short),
        refl,
        get_elem?-set_self t.processes n q (get_elem?-length t.processes n p at),
        record {
          id = refl;
          is_on = refl;
          affinity = refl;
          no_time = (refl, refl, refl, refl);
          image_is = (refl, refl, refl);
          stack = (refl, refl);
          tree = ground arith;
          parent = refl;
        },
        overwrite-append (c ∷ cs) p.name fits,
        λ j ne. get_elem?-set_ne t.processes q ne,
      )

  -- A name longer than the array is refused, but only after the count has grown: the slot is lost.
  pub spawn_name_too_long :
      code ≢ 0
      → n ≤ process_limit_per_team
      → name_len < length (c ∷ cs)
      → t.process_cur ≡ pos n
      → get_elem? t.processes n ≡ some p
      → (u : Team) × (spawn frame tree vm t (some (c ∷ cs)) code image image_sz
          ≡ spawned error_process_fault u)
        × (u.process_cur ≡ pos (n + 1))
        × (get_elem? u.processes n ≡ some with_image)
  spawn_name_too_long has_code slot long cur at = (
    record t { process_cur = pos (n + 1); processes = set t.processes n with_image },
    spawn-fill_slot has_code slot cur at (error_process_fault, with_image)
        (unfold fill_slot in ground arith),
    refl,
    get_elem?-set_self t.processes n with_image (get_elem?-length t.processes n p at),
  )

-- A refused spawn that leaves the team as it was: no name, an empty name, no code, or a count above
-- the limit.
pub spawn_refused :
    (frame tree vm : ℕ) (t : Team) (name : Option (List ℕ)) (code image image_sz : ℕ)
    → (name ≡ none)
      ⊎ ((name ≡ some []) ⊎ ((code ≡ 0) ⊎ (above t.process_cur process_limit_per_team ≡ true)))
    → spawn frame tree vm t name code image image_sz ≡ spawned error_process_fault t
unfolding spawn
spawn_refused frame tree vm t none code image image_sz h = refl
spawn_refused frame tree vm t (some []) code image image_sz h = refl
spawn_refused frame tree vm t (some (c ∷ cs)) code image image_sz h = ground arith

pub get_elem?-end : (ps : List UserProcess) (n : ℕ) → length ps ≤ n → get_elem? ps n ≡ none
get_elem?-end [] n h = refl
get_elem?-end (x ∷ xs) zero h = absurd (omega arith)
get_elem?-end (x ∷ xs) (suc n) h = get_elem?-end xs n (omega arith)

-- In a team of 32 processes whose count is 32, a spawn passes the limit's test and writes behind the
-- array.
spawn_at_limit :
    (frame tree vm : ℕ) (t : Team) (c : ℕ) (cs : List ℕ) (code image image_sz : ℕ)
    → length t.processes ≡ process_limit_per_team
    → t.process_cur ≡ pos process_limit_per_team
    → code ≢ 0
    → spawn frame tree vm t (some (c ∷ cs)) code image image_sz
      ≡ SpawnOutcome.out_of_bounds (pos process_limit_per_team)
unfolding spawn
spawn_at_limit frame tree vm t c cs code image image_sz full cur has_code =
    ground (arith, get_elem?-end t.processes 32)
