-- ===== src/Jobs/Store.antt =====
-- services/jobs/job_manager.py with services/jobs/state_store.py: the records of the jobs and the
-- operations that submit, claim, cancel, finish and prune them. The store is its state files and the
-- jobs that have log files; the order of the files is that of the list.
pub mod Records
pub mod Exclusive
pub mod Retention
use super_opencode.Base.{
  ℕ, ◌-◌, Bool, true, false, not, ◌&&◌, ◌||◌, Option, none, some, List, [], ◌∷◌, ◌++◌, map, keep,
  any, ltb, ◌==◌, if◌then◌else◌, length, take, Text, mem_text, text_eq,
}
use super_opencode.Goal.Direction.{text_le}
use super_opencode.Jobs.States.{
  JobState, pending, running, success, failed, cancelled, blocked, abandoned, is_active,
  is_terminal,
}

-- The fields of a record that the manager reads.
pub record Job : Type 0 where
  pub job_id : Text
  pub kind : Text
  pub state : JobState
  pub workspace : Text
  pub batch_id : Option Text
  pub updated_at : ℕ

-- An entry of `_active_jobs`.
pub record Entry : Type 0 where
  pub job_id : Text
  pub stop_event : Bool

pub record Manager : Type 0 where
  pub store : List Job
  pub logs : List Text  -- the jobs that have log files
  pub sentinels : List Text  -- the jobs that have a cancel file
  pub active_jobs : List Entry
  pub max_stored : ℕ

-- `get_job_state`
unfoldable pub get_job_state : Text → List Job → Option Job
get_job_state id [] = none
get_job_state id (j ∷ js) = if text_eq j.job_id id then some j else get_job_state id js

-- `save_job_state`, with the clock already in the record
unfoldable pub save_job_state : Job → List Job → List Job
save_job_state j [] = j ∷ []
save_job_state j (k ∷ ks) = if text_eq k.job_id j.job_id then j ∷ ks else k ∷ save_job_state j ks

-- the new record: a missing one becomes one without settings
unfoldable pub with_state : Text → JobState → ℕ → Option Job → Job
with_state id state now none = record {
  job_id = id;
  kind = [];
  state = state;
  workspace = [];
  batch_id = none;
  updated_at = now;
}
with_state id state now (some j) = record j { job_id = id; state = state; updated_at = now }

-- `_update_state` and the last lines of `cancel_job`
unfoldable pub update_state : Text → JobState → ℕ → List Job → List Job
update_state id state now jobs =
    save_job_state (with_state id state now (get_job_state id jobs)) jobs

-- `delete_job`, of the state file
unfoldable pub delete_job : Text → List Job → List Job
delete_job id jobs = keep (λ (j : Job). not (text_eq j.job_id id)) jobs

-- Tuples of a time and an id in Python's order.
unfoldable pub older : Job → Job → Bool
older j k =
    ltb j.updated_at k.updated_at || (j.updated_at == k.updated_at && text_le j.job_id k.job_id)

unfoldable pub insert_job : Job → List Job → List Job
insert_job j [] = j ∷ []
insert_job j (k ∷ ks) = if older j k then j ∷ (k ∷ ks) else k ∷ insert_job j ks

unfoldable pub sort_jobs : List Job → List Job
sort_jobs [] = []
sort_jobs (j ∷ js) = insert_job j (sort_jobs js)

-- the jobs past the cap, the oldest first
unfoldable pub surplus : ℕ → List Job → List Job
surplus max_stored jobs =
    let terminal = sort_jobs (keep (λ (j : Job). is_terminal j.state) jobs) in
    take (length terminal - max_stored) terminal

-- the ids of the surplus for which `drop_job_logs` removes a file
unfoldable pub dropped_ids : Manager → List Text
dropped_ids m =
    keep (λ id. mem_text id m.logs) (map (λ (j : Job). j.job_id) (surplus m.max_stored m.store))

-- `prune_stored_jobs`, with the ids whose log files were dropped
unfoldable pub prune_stored_jobs : Manager → Manager × List Text
prune_stored_jobs m =
    if m.max_stored == 0
    then (m, [])
    else (record m { logs = keep (λ id. not (mem_text id (dropped_ids m))) m.logs }, dropped_ids m)

-- `_active_jobs[id] = ...`, with a new stop event
unfoldable pub add_entry : Text → List Entry → List Entry
add_entry id entries =
    record { job_id = id; stop_event = false }
    ∷ keep (λ (e : Entry). not (text_eq e.job_id id)) entries

abbrev pub pending_job : Text → Text → Text → Option Text → ℕ → Job
pending_job id kind workspace batch now = record {
  job_id = id;
  kind = kind;
  state = pending;
  workspace = workspace;
  batch_id = batch;
  updated_at = now;
}

-- what `enqueue_job` does under the lock once no job collides
abbrev pub queue_job : Job → Manager → Manager
queue_job j m = record m {
  active_jobs = add_entry j.job_id m.active_jobs;
  store = save_job_state j m.store;
}

-- the scan of `enqueue_job`
unfoldable pub is_taken : Text → List Job → Bool
is_taken workspace jobs = any (λ (j : Job). is_active j.state && text_eq j.workspace workspace) jobs

-- `enqueue_job`; the fresh id is a parameter, and `none` is the ValueError.
unfoldable pub enqueue_job : Text → Text → Text → Option Text → ℕ → Manager → Option Manager
enqueue_job id kind workspace batch now m =
    if is_taken workspace m.store
    then none
    else some (prune_stored_jobs (queue_job (pending_job id kind workspace batch now) m)).0

unfoldable pub signal : Text → List Entry → List Entry
signal id entries =
    map (λ (e : Entry). if text_eq e.job_id id then record e { stop_event = true } else e) entries

abbrev pub add : Text → List Text → List Text
add id ids = if mem_text id ids then ids else id ∷ ids

-- `cancel_job` up to its write of the state: the cancel file, the stop event and the log
abbrev pub request_cancel : Text → Manager → Manager
request_cancel id m = record m {
  sentinels = add id m.sentinels;
  active_jobs = signal id m.active_jobs;
  logs = add id m.logs;
}

-- that write, which holds no lock
abbrev pub write_cancel : Text → ℕ → Manager → Manager
write_cancel id now m = record m { store = update_state id cancelled now m.store }

-- `cancel_job`, where no other process writes in between
unfoldable pub cancel_job : Text → ℕ → Manager → Manager
cancel_job id now m = write_cancel id now (request_cancel id m)

-- `cancel_if_live`: no entry, or one that is already stopping, is left alone
unfoldable pub cancel_if_live : Text → ℕ → Manager → Manager × Bool
cancel_if_live id now m =
    if any (λ (e : Entry). text_eq e.job_id id && not e.stop_event) m.active_jobs
    then (cancel_job id now m, true)
    else (m, false)

-- whether `cancel_batch` cancels the job
abbrev pub is_due : Text → Option Job → Bool
is_due batch none = false
is_due batch (some j) = elim j.batch_id [
  | none ↦ false
  | some b ↦ text_eq b batch && is_active j.state
]

-- the loop of `cancel_batch` over the listed ids
unfoldable pub cancel_each : Text → ℕ → List Text → Manager → Manager × List Text
cancel_each batch now [] m = (m, [])
cancel_each batch now (id ∷ ids) m =
    let due = is_due batch (get_job_state id m.store) in
    let (m', done) = cancel_each batch now ids (if due then cancel_job id now m else m) in
    (m', if due then id ∷ done else done)

unfoldable pub cancel_batch : Text → ℕ → Manager → Manager × List Text
cancel_batch batch now m = cancel_each batch now (map (λ (j : Job). j.job_id) m.store) m

-- `run_stored_job` on a record whose settings can be rebuilt
unfoldable pub run_stored_job : Text → ℕ → Manager → Manager × Bool
run_stored_job id now m = elim (get_job_state id m.store) [
  | none ↦ (m, false)
  | some j ↦ elim j.state [
    | pending ↦
        if mem_text id m.sentinels
        then (record m { store = update_state id cancelled now m.store }, false)
        else (record m { active_jobs = add_entry id m.active_jobs }, true)
    | running ↦ (m, false)
    | success ↦ (m, false)
    | failed ↦ (m, false)
    | cancelled ↦ (m, false)
    | blocked ↦ (m, false)
    | abandoned ↦ (m, false)
  ]
]

-- The end of a worker: the final state, then the entry and the cancel file are removed.
unfoldable pub finish_job : Text → JobState → ℕ → Manager → Manager
finish_job id state now m = record m {
  store = update_state id state now m.store;
  active_jobs = keep (λ (e : Entry). not (text_eq e.job_id id)) m.active_jobs;
  sentinels = keep (λ s. not (text_eq s id)) m.sentinels;
}
