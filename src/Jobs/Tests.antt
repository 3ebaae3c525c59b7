-- ===== src/Jobs/Tests.antt =====
-- Jobs on concrete stores, logs and slots.
use super_opencode.Base.{
  ◌-◌, ◌≡◌, ◌≤◌, ◌<◌, ◌⊎◌, refl, true, false, none, some, is_some, List, [], ◌∷◌, ◌++◌, any,
  count_if, length, ltb, if◌then◌else◌, Text, codes, mem_text, text_eq,
}
use super_opencode.Jobs.States.{running, success, failed, is_active, is_terminal}
use super_opencode.Jobs.Outcome.{
  closing_state, is_closing, is_error, final_state_from_logs, final_state_is_last_marker,
}
use super_opencode.Jobs.Slots.{
  Slots, new, take_slot, sync_parallel_flag, Pool, submit, enter, Reachable, start, next,
}
use super_opencode.Jobs.Slots.Shared.{slots_are_counted}
use super_opencode.Jobs.Store.{Job, Manager, is_taken, prune_stored_jobs}
use super_opencode.Jobs.Store.Exclusive.{IsExclusive, clashes, enqueue, apply, apply-IsExclusive}
use super_opencode.Jobs.Store.Retention.{is_terminal_job, prunes_terminal_jobs}

abbrev newer : List Text
newer = codes "info" ∷ codes "error" ∷ []

quiet : any is_closing newer ≡ false
unfolding closing_state text_eq
quiet = refl

final_state_is_last_marker_example :
    (closing_state (codes "success") ≡ some success
      → final_state_from_logs ((codes "info" ∷ []) ++ codes "success" ∷ newer)
        ≡ (if any is_error newer then failed else success))
    × (final_state_from_logs newer ≡ failed)
final_state_is_last_marker_example =
    final_state_is_last_marker (codes "info" ∷ []) newer (codes "success") success quiet

abbrev idle : Pool
idle = record { slots = new 4; parked = 0; holding = 0 }

abbrev waiting : Pool
waiting = record idle { parked = 1 }

abbrev taken : Slots
taken = record { max_parallel = 4; running_count = 1; parallel_flag = false }

abbrev working : Pool
working = record { slots = taken; parked = 0; holding = 1 }

first_slot : take_slot (new 4) ≡ some taken
unfolding take_slot new sync_parallel_flag
first_slot = refl

reached : Reachable 4 working
unfolding new
reached = next (next (start 4) submit) (enter refl first_slot)

slots_are_counted_example :
    (working.slots.running_count ≡ working.holding)
    × (working.slots.parallel_flag ≡ ltb 1 working.holding)
    × (working.holding ≤ 4)
    × ((is_some (take_slot working.slots) ≡ true) ⊎ (0 < working.holding))
slots_are_counted_example = slots_are_counted reached

abbrev first : Job
first = record {
  job_id = codes "run_1";
  kind = codes "run";
  state = running;
  workspace = codes "/a";
  batch_id = none;
  updated_at = 5;
}

abbrev manager : Manager
manager = record {
  store = first ∷ record first { job_id = codes "run_0"; state = success; updated_at = 2 } ∷ [];
  logs = codes "run_0" ∷ codes "run_1" ∷ [];
  sentinels = [];
  active_jobs = record { job_id = codes "run_1"; stop_event = false } ∷ [];
  max_stored = 1;
}

manager-IsExclusive : IsExclusive manager.store
unfolding IsExclusive clashes is_active
manager-IsExclusive = (refl, (refl, tt))

apply-IsExclusive_example :
    IsExclusive (apply (enqueue (codes "run_2") (codes "run") (codes "/b") none 9) manager).store
apply-IsExclusive_example =
    apply-IsExclusive (enqueue (codes "run_2") (codes "run") (codes "/b") none 9) manager
      manager-IsExclusive

refused : is_taken (codes "/a") manager.store ≡ true
unfolding is_taken is_active text_eq
refused = refl

prunes_terminal_jobs_example :
    ((prune_stored_jobs manager).0.store ≡ manager.store)
    × ((id : Text)
        → mem_text id (prune_stored_jobs manager).1 ≡ true
        → any (is_terminal_job id) manager.store ≡ true)
    × (length (prune_stored_jobs manager).1
        ≤ count_if (λ (j : Job). is_terminal j.state) manager.store - manager.max_stored)
    × (manager.max_stored ≡ 0 → (prune_stored_jobs manager).1 ≡ [])
prunes_terminal_jobs_example = prunes_terminal_jobs manager
