-- ===== src/Jobs/Worker.antt =====
-- services/jobs/job_manager.py: the steps of a worker on the records, from the moment it holds a slot.
-- An event without a stop request before the next heartbeat changes no record.
pub mod Cancelled
mod Tests
use super_opencode.Base.{
  ℕ, Bool, true, false, not, ◌&&◌, ◌||◌, Option, none, some, List, [], ◌∷◌, keep, any,
  if◌then◌else◌, Text, mem_text, text_eq,
}
use super_opencode.Jobs.States.{JobState, running, failed, cancelled, is_terminal}
use super_opencode.Jobs.Outcome.{final_state_from_logs}
use super_opencode.Jobs.Store.{Job, Entry, Manager, get_job_state, save_job_state, update_state}

-- The arguments of the worker's thread.
pub record Task : Type 0 where
  pub job_id : Text
  pub kind : Text
  pub workspace : Text
  pub batch_id : Option Text

-- the record that marks the job as running
abbrev pub running_job : Task → ℕ → Job
running_job t now = record {
  job_id = t.job_id;
  kind = t.kind;
  state = running;
  workspace = t.workspace;
  batch_id = t.batch_id;
  updated_at = now;
}

abbrev pub mark_running : Task → ℕ → Manager → Manager
mark_running t now m = record m { store = save_job_state (running_job t now) m.store }

-- the `finally` block, less the slot
abbrev pub leave : Task → Manager → Manager
leave t m = record m {
  active_jobs = keep (λ (e : Entry). not (text_eq e.job_id t.job_id)) m.active_jobs;
  sentinels = keep (λ s. not (text_eq s t.job_id)) m.sentinels;
}

abbrev pub set_state : Task → JobState → ℕ → Manager → Manager
set_state t state now m = record m { store = update_state t.job_id state now m.store }

-- `stop_requested`
unfoldable pub stop_requested : Task → Manager → Bool
stop_requested t m =
    any (λ (e : Entry). text_eq e.job_id t.job_id && e.stop_event) m.active_jobs
    || mem_text t.job_id m.sentinels

-- The return on a stop request.
abbrev pub stop_work : Task → ℕ → Manager → Manager
stop_work t now m =
    leave t (if mem_text t.job_id m.sentinels then set_state t cancelled now m else m)

-- The step into the loop; the Boolean of a step is whether the worker goes on.
unfoldable pub begin_work : Task → ℕ → Manager → Manager × Bool
begin_work t now m = elim (get_job_state t.job_id m.store) [
  | none ↦ (mark_running t now m, true)
  | some j ↦ if is_terminal j.state then (leave t m, false) else (mark_running t now m, true)
]

-- A check for a stop request, with what follows if there is none.
abbrev pub check_stop : Task → ℕ → Manager → Manager × Bool → Manager × Bool
check_stop t now m next = if stop_requested t m then (stop_work t now m, false) else next

-- An event of the loop: the check for a stop request, and the heartbeat, which is due, where no other
-- process writes between the two. No lock is held there: the parts on their own are `check_stop` and
-- `mark_running`.
unfoldable pub heartbeat : Task → ℕ → Manager → Manager × Bool
heartbeat t now m = check_stop t now m (mark_running t now m, true)

-- The end of the event stream, with the levels of the log.
unfoldable pub end_work : Task → List Text → ℕ → Manager → Manager × Bool
end_work t levels now m =
    check_stop t now m (leave t (set_state t (final_state_from_logs levels) now m), false)

-- An exception in the worker.
unfoldable pub fail_work : Task → ℕ → Manager → Manager × Bool
fail_work t now m = (leave t (set_state t failed now m), false)

-- `saves` and `closes` are the writes of RUNNING and of the final state that follow an earlier check,
-- where something else was written in between.
pub data Move : Type 0 where
  begins beats saves fails : Move
  ends closes : List Text → Move

unfoldable pub step : Task → Move → ℕ → Manager → Manager × Bool
step t begins now m = begin_work t now m
step t beats now m = heartbeat t now m
step t saves now m = (mark_running t now m, true)
step t fails now m = fail_work t now m
step t (ends levels) now m = end_work t levels now m
step t (closes levels) now m = (leave t (set_state t (final_state_from_logs levels) now m), false)
