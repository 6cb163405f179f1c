-- ===== src/Scheduler/Dispatch.antt =====
-- `UserProcessScheduler::Run` of UserProcessScheduler.cpp and the tests on the whole team. Sums and
-- differences of the times wrap at 64 bits. `sig` is the trap signal's identifier.
pub mod Counters
pub mod Turns
pub mod Rounds
use krnl.Base.{
  ℕ, zero, suc, ◌+◌, ◌-◌, ◌/◌, ◌%◌, ◌^◌, Bool, true, false, not, ◌&&◌, ◌||◌, List, [], ◌∷◌, Option,
  none, some, ltb, leb, ◌==◌, if◌then◌else◌, length, get_elem?, set,
}
use krnl.Base.Int.{ℤ, pos, negsuc, is_positive}
use krnl.Process.{
  UserProcess, ultra_high, very_high, high, standard, low_usage, affinity_eq, affinity_value,
  is_frozen, word_mod, can_be_scheduled,
}
use krnl.Cpu.{Cpus, helper_switch}
use krnl.Scheduler.{Team, Scheduler}

abbrev pub add64 : ℕ → ℕ → ℕ
add64 a b = (a + b) % word_mod

abbrev pub sub64 : ℕ → ℕ → ℕ
sub64 a b = (a + word_mod - b) % word_mod

-- The index of the next turn: past the array's size it starts again.
unfoldable pub next_index : ℕ → ℕ → ℕ
next_index limit index = if ltb limit index then 0 else index + 1

-- What a turn does before the switch: the used time, and the boost of a process that slept.
unfoldable pub before_switch : UserProcess → UserProcess
before_switch p =
    let q = record p { u_time = if ltb p.u_time p.p_time then add64 p.u_time 1 else p.u_time } in
    if ltb 0 q.s_time
    then (let boost = q.s_time / 10 in
        let capped = if ltb (affinity_value high) boost then affinity_value high else boost in
        record q { p_time = add64 q.p_time capped; s_time = 0 })
    else q

-- What it does after a switch that worked: the cooldown, or more time.
pub after_switch : UserProcess → UserProcess
after_switch p =
    if ltb p.p_time p.r_time && not (affinity_eq ultra_high p.affinity)
    then (let r_time =
          if ltb p.r_time (affinity_value very_high)
          then add64 p.r_time (affinity_value low_usage)
          else if ltb p.r_time (affinity_value high)
          then add64 p.r_time (affinity_value standard)
          else if ltb p.r_time (affinity_value standard)
          then add64 p.r_time (affinity_value high)
          else p.r_time in
        record p { p_time = sub64 p.p_time r_time; r_time = 0 })
    else if not (affinity_eq ultra_high p.affinity)
    then record p { p_time = add64 p.p_time (affinity_value ultra_high) }
    else p

-- A turn of a process that cannot be scheduled.
unfoldable pub wait_turn : UserProcess → UserProcess
wait_turn p =
    let q = if is_frozen p.status then record p { s_time = add64 p.s_time 1 } else p in
    record q { r_time = add64 q.r_time 1; p_time = sub64 q.p_time 1 }

-- The time that `Switch` hands to the hardware thread: that of the team's process at `new_pid`.
abbrev pub time_at : List UserProcess → ℤ → Option ℕ
time_at ps (negsuc n) = none
time_at ps (pos n) = elim (get_elem? ps n) [ none ↦ none | some p ↦ some p.p_time ]

pub data RunOutcome : Type 0 where
  idle : RunOutcome
  ran : ℕ → Scheduler → RunOutcome
  out_of_bounds : RunOutcome

-- `operator bool`: some process can be scheduled.
pub any_schedulable : ℕ → List UserProcess → Bool
any_schedulable sig [] = false
any_schedulable sig (p ∷ ps) = can_be_scheduled sig p || any_schedulable sig ps

-- `operator!`: the count of those that can is 0.
pub count_schedulable : ℕ → List UserProcess → ℕ
count_schedulable sig [] = 0
count_schedulable sig (p ∷ ps) =
    (if can_be_scheduled sig p then 1 else 0) + count_schedulable sig ps

pub none_schedulable : ℕ → List UserProcess → Bool
unfolding count_schedulable
none_schedulable sig ps = count_schedulable sig ps == 0

module _ (check_task : ℕ → Bool) (register_task : ℕ → ℕ → Bool) (sig : ℕ) where
  -- A turn of the process `p` at `index`, in the state with that index. A scheduled process whose
  -- identifier names no slot makes `Switch` read outside the array if it finds a thread.
  unfoldable pub turn : Scheduler → ℕ → UserProcess → RunOutcome
  turn s index p =
      if can_be_scheduled sig p
      then (let q = before_switch p in
          let processes = set s.team.processes index q in
          let team = record (s.team) { processes = processes; current = q } in
          let waiting = record s { team = team } in
          elim (time_at processes q.process_id) [
            | none ↦
                (let (done, cpus) = helper_switch check_task register_task s.cpus q.stack_frame 0 in
                  if done then out_of_bounds else ran index (record waiting { cpus = cpus }))
            | some time ↦
                (let (done, cpus) =
                    helper_switch check_task register_task s.cpus q.stack_frame time in
                  if done
                  then ran index (record waiting {
                    team = record team { processes = set processes index (after_switch q) };
                    cpus = cpus;
                  })
                  else ran index (record waiting { cpus = cpus }))
          ])
      else ran index (record s {
        team = record (s.team) { processes = set s.team.processes index (wait_turn p) };
      })

  -- `Run`.
  unfoldable pub run : Scheduler → RunOutcome
  unfolding next_index turn
  run s =
      if not (is_positive s.team.process_cur)
      then idle
      else (let index = next_index (length s.team.processes) s.index in
          elim (get_elem? s.team.processes index) [
            | none ↦ out_of_bounds
            | some p ↦ turn (record s { index = index }) index p
          ])
