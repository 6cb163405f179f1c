-- ===== src/Scheduler.antt =====
-- The scheduler of private/minkernel/src/UserProcessScheduler.cpp over one team: spawning, exiting,
-- removing and running processes. An access outside the array of 32 processes is an outcome of its
-- own. Memory is released through calls that are listed in their order; allocations, and the
-- platform's task switch, are parameters. Printing and page mapping are left out.
pub mod Dispatch
pub mod Slots
pub mod Exits
use krnl.Base.{
  ℕ, zero, suc, ◌+◌, ◌-◌, ◌*◌, ◌/◌, ◌%◌, ◌^◌, Bool, true, false, not, ◌&&◌, ◌||◌, List, [], ◌∷◌,
  ◌++◌, Option, none, some, ltb, leb, ◌==◌, if◌then◌else◌, length, get_elem?, get_or, set,
  replicate,
}
use krnl.Base.Int.{ℤ, pos, negsuc, neg, inc, dec, is_positive}
use krnl.Process.{
  UserProcess, ProcessStatusKind, AffinityKind, ExecutableKind, running, killed, frozen, finished,
  ultra_high, very_high, high, standard, low_usage, dylib, affinity_eq, affinity_value, is_running,
  is_frozen, is_invalid, max_stack_sz, process_limit_per_team, name_len, word_mod, crash,
  can_be_scheduled, executable,
}
use krnl.Cpu.{Cpus, helper_switch}

pub record Team : Type 0 where
  pub processes : List UserProcess
  pub current : UserProcess
  pub id : ℤ
  pub process_cur : ℤ

-- `index` is the static of `Run`.
pub record Scheduler : Type 0 where
  pub team : Team
  pub cpus : Cpus
  pub index : ℕ

abbrev pub error_process_fault : ℤ
error_process_fault = neg 39

abbrev pub error_heap_out_of_memory : ℤ
error_heap_out_of_memory = neg 44

-- The first bytes of an array overwritten.
pub overwrite : List ℕ → List ℕ → List ℕ
overwrite [] old = old
overwrite (c ∷ cs) [] = []
overwrite (c ∷ cs) (o ∷ old) = c ∷ overwrite cs old

-- The constructor of the team, over a default process.
unfoldable pub new_team : UserProcess → Team
new_team p = record {
  processes =
      replicate process_limit_per_team
        (record p { p_time = 0; r_time = 0; u_time = 0; s_time = 0; status = killed });
  current = p;
  id = pos 0;
  process_cur = pos 0;
}

-- `SwitchTeam`: the team copied in, if its array has room, which it always has.
unfoldable pub switch_team : Scheduler → Team → Bool × Scheduler
switch_team s team =
    if ltb (length team.processes) 1 then (false, s) else (true, record s { team = team })

-- `TheCurrentPID`: `none` for the error.
unfoldable pub the_current_pid : Scheduler → Option ℤ
the_current_pid s =
    if not (is_running s.team.current.status) then none else some s.team.current.process_id

pub data SpawnOutcome : Type 0 where
  spawned : ℤ → Team → SpawnOutcome
  out_of_bounds : ℤ → SpawnOutcome

-- Is a process identifier above a limit?
abbrev pub above : ℤ → ℕ → Bool
above (pos n) limit = ltb limit n
above (negsuc n) limit = false

-- The slot that is filled in, once the name and the code have passed.
pub fill_slot : ℕ → ℕ → ℕ → UserProcess → ℤ → List ℕ → ℤ × UserProcess
fill_slot stack_frame file_tree kernel_vm p pid name =
    if ltb name_len (length name)
    then (error_process_fault, p)
    else (let named = record p {
      name = overwrite name p.name;
      vm_register = kernel_vm;
      stack_frame = stack_frame;
    } in
        if stack_frame == 0
        then (error_process_fault, crash named)
        else (let ready = record named {
          stack_size = max_stack_sz;
          has_parent = true;
          process_id = pid;
          status = running;
          p_time = 0;
          affinity = standard;
          r_time = 0;
          u_time = 0;
          s_time = 0;
        } in
            if ready.file_tree == 0
            then (if file_tree == 0
                then (error_heap_out_of_memory, crash (record ready { file_tree = 0 }))
                else (pid, record ready { file_tree = file_tree }))
            else (pid, ready)))

-- `Spawn`. `name` is `none` for null, else the bytes up to the terminator; `stack_frame` and
-- `file_tree` are what `new` returns, 0 for failure; `kernel_vm` is `kKernelVM`.
pub spawn : ℕ → ℕ → ℕ → Team → Option (List ℕ) → ℕ → ℕ → ℕ → SpawnOutcome
unfolding fill_slot
spawn stack_frame file_tree kernel_vm t none code image image_sz = spawned error_process_fault t
spawn stack_frame file_tree kernel_vm t (some []) code image image_sz =
    spawned error_process_fault t
spawn stack_frame file_tree kernel_vm t (some (c ∷ cs)) code image image_sz =
    if code == 0
    then spawned error_process_fault t
    else if above t.process_cur process_limit_per_team
    then spawned error_process_fault t
    else (elim t.process_cur [
      | negsuc n ↦ out_of_bounds (negsuc n)
      | pos n ↦ (elim (get_elem? t.processes n) [
        | none ↦ out_of_bounds (pos n)
        | some p ↦
            (let q = record p { image_code = code; image_blob = image; image_blob_sz = image_sz } in
              let (pid, r) = fill_slot stack_frame file_tree kernel_vm q (pos n) (c ∷ cs) in
              spawned pid (record t { process_cur = pos (n + 1); processes = set t.processes n r }))
      ])
    ])

-- The calls that release memory.
pub data Release : Type 0 where
  heap_tree file_tree page_dir block : ℕ → Release

-- A block is released if it is there and valid after the releases before it.
abbrev pub when_valid : (List Release → ℕ → Bool) → ℕ → List Release → List Release
when_valid is_valid ptr before =
    if not (ptr == 0) && is_valid before ptr then before ++ block ptr ∷ [] else before

-- The releases of `Exit`, in order. Whether a pointer is valid depends on the releases before.
pub exit_releases : (List Release → ℕ → Bool) → UserProcess → List Release
exit_releases is_valid p =
    let trees = heap_tree p.heap_tree ∷ file_tree p.file_tree ∷ [] in
    let dir = if p.vm_register == 0 then trees else trees ++ page_dir p.vm_register ∷ [] in
    let code = when_valid is_valid p.image_code dir in
    let blob = when_valid is_valid p.image_blob code in when_valid is_valid p.stack_frame blob

abbrev pub is_dylib : ExecutableKind → Bool
is_dylib dylib = true
is_dylib _ = false

-- `UserProcess::Exit`, but for the count of the team, which `remove` lowers: `none` when the kernel is
-- stopped because the dylib could not be finished. `fini` is the success that `rtl_fini_dylib_pef`
-- reports.
pub exit_process : (UserProcess → Bool) → UserProcess → ℤ → Option UserProcess
exit_process fini p exit_code =
    let gone = record p {
      status = if is_positive exit_code then killed else frozen;
      last_exit_code = exit_code;
      heap_tree = 0;
      file_tree = 0;
      image_blob = 0;
      image_code = 0;
      stack_frame = 0;
    } in
    if is_dylib p.kind
    then (if not (fini gone)
        then none
        else some (record gone { dylib_delegate = 0; process_id = pos 0; status = finished }))
    else some (record gone { process_id = pos 0; status = finished })

pub data RemoveOutcome : Type 0 where
  removed : Team → List Release → RemoveOutcome
  ignored : RemoveOutcome
  stopped : RemoveOutcome
  no_parent : RemoveOutcome
  out_of_bounds : ℕ → RemoveOutcome

-- `Remove`. The count is lowered through `Parent`, which only `Spawn` sets.
pub remove : (UserProcess → Bool) → (List Release → ℕ → Bool) → Team → ℤ → RemoveOutcome
unfolding exit_process exit_releases
remove fini is_valid t (negsuc n) = ignored
remove fini is_valid t (pos n) =
    if ltb process_limit_per_team n then ignored else (elim (get_elem? t.processes n) [
      | none ↦ out_of_bounds n
      | some p ↦
          (if is_invalid p.status then ignored else (elim (exit_process fini p (pos 0)) [
            | none ↦ stopped
            | some q ↦
                (if not p.has_parent
                  then no_parent
                  else removed
                      (record t {
                        processes = set t.processes n q;
                        process_cur = dec t.process_cur;
                      })
                      (exit_releases is_valid p))
          ]))
    ])
