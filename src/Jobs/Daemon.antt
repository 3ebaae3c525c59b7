-- ===== src/Jobs/Daemon.antt =====
-- services/jobs/worker_service.py: the daemon that claims the stored jobs and runs their workers, with
-- the client of the user interface beside it. Where the source holds no lock between a check and the
-- write that follows, the write is also a step of its own: the worker's writes of RUNNING and of a final
-- state, and the client's write of CANCELLED. The other steps are atomic.
pub mod Frames
pub mod Apart
pub mod Workers
pub mod Tasks
pub mod Sound
pub mod Ends
pub mod Steps
pub mod Reach
mod Tests
use super_opencode.Base.{
  ℕ, ◌-◌, Bool, true, false, ◌&&◌, ◌≡◌, ◌⊎◌, Option, none, some, List, [], ◌∷◌, map, ltb,
  if◌then◌else◌, Text, mem_text, text_eq,
}
use super_opencode.Jobs.States.{
  JobState, pending, running, success, failed, cancelled, blocked, abandoned,
}
use super_opencode.Jobs.Store.{
  Job, Manager, get_job_state, update_state, prune_stored_jobs, cancel_if_live, run_stored_job, add,
}
use super_opencode.Jobs.Client.{write_pending, ask_request, write_cancelled}
use super_opencode.Jobs.Worker.{Task, Move, step, leave}

-- `_STALE_SECONDS`
abbrev pub stale_seconds : ℕ
stale_seconds = 15

-- `_acquire_lock`: the time at which the lock was last touched, where there is one
unfoldable pub acquire_lock : Option ℕ → ℕ → Option ℕ × Bool
acquire_lock none now = (some now, true)
acquire_lock (some touched) now =
    if ltb (now - touched) stale_seconds then (some touched, false) else (some now, true)

unfoldable pub is_running : Option Job → Bool
is_running none = false
is_running (some j) = elim j.state [ running ↦ true | _ ↦ false ]

-- one record of `_mark_orphans`
abbrev pub mark_abandoned : Text → ℕ → Manager → Manager
mark_abandoned id now m = record m {
  store = update_state id abandoned now m.store;
  logs = add id m.logs;
}

-- the loop of `_mark_orphans` over the listed ids
unfoldable pub mark_each : ℕ → List Text → Manager → Manager × List Text
mark_each now [] m = (m, [])
mark_each now (id ∷ ids) m =
    let orphan = is_running (get_job_state id m.store) in
    let (m', flagged) = mark_each now ids (if orphan then mark_abandoned id now m else m) in
    (m', if orphan then id ∷ flagged else flagged)

unfoldable pub mark_orphans : ℕ → Manager → Manager × List Text
mark_orphans now m = mark_each now (map (λ (j : Job). j.job_id) m.store) m

-- The store with the manager's entries, the workers that live in the daemon, and its claimed ids.
pub record System : Type 0 where
  pub manager : Manager
  pub tasks : List Task
  pub claimed : List Text

unfoldable pub find_task : Text → List Task → Option Task
find_task id [] = none
find_task id (t ∷ ts) = if text_eq t.job_id id then some t else find_task id ts

-- the end of a worker's thread
unfoldable pub retire : Text → List Task → List Task
retire id [] = []
retire id (t ∷ ts) = if text_eq t.job_id id then ts else t ∷ retire id ts

-- the arguments of the thread that `run_stored_job` starts
abbrev pub task_of : Text → Job → Task
task_of id j = record { job_id = id; kind = j.kind; workspace = j.workspace; batch_id = j.batch_id }

-- The claim of a job that is not claimed yet.
abbrev pub claim_job : Text → ℕ → Job → System → System
claim_job id now j s =
    let (m, started) = run_stored_job id now s.manager in
    if started
    then record { manager = m; tasks = task_of id j ∷ s.tasks; claimed = id ∷ s.claimed }
    else record s { manager = m }

-- Its visit, by the state of the record.
unfoldable pub visit_new : Bool → Text → ℕ → Option Job → System → System
visit_new allow id now none s = s
visit_new allow id now (some j) s = elim j.state [
  | pending ↦ if allow then claim_job id now j s else s
  | running ↦ s
  | success ↦ s
  | failed ↦ s
  | cancelled ↦ record s { manager = (cancel_if_live id now s.manager).0 }
  | blocked ↦ s
  | abandoned ↦ s
]

-- The loop of a poll at one id. `allow` is `allow_claims`.
unfoldable pub visit : Bool → Text → ℕ → System → System
visit allow id now s =
    if mem_text id s.claimed
    then (if mem_text id s.manager.sentinels
        then record s { manager = (cancel_if_live id now s.manager).0 }
        else s)
    else visit_new allow id now (get_job_state id s.manager.store) s

-- The loop of a poll over the listed ids, each with the flag at its time.
unfoldable pub visit_all : ℕ → List (Text × Bool) → System → System
visit_all now [] s = s
visit_all now ((id, allow) ∷ rest) s = visit_all now rest (visit allow id now s)

-- The end of the poll.
abbrev pub prune : System → System
prune s = record s { manager = (prune_stored_jobs s.manager).0 }

-- A step of the worker of a job, if it lives.
unfoldable pub work_by : Option Task → Text → Move → ℕ → System → System
work_by none id move now s = s
work_by (some t) id move now s =
    let (m, goes_on) = step t move now s.manager in
    record s { manager = m; tasks = if goes_on then s.tasks else retire id s.tasks }

unfoldable pub work : Text → Move → ℕ → System → System
work id move now s = work_by (find_task id s.tasks) id move now s

-- A worker that is cancelled before it has a slot.
unfoldable pub give_up_by : Option Task → Text → System → System
give_up_by none id s = s
give_up_by (some t) id s = record s { manager = leave t s.manager; tasks = retire id s.tasks }

unfoldable pub give_up : Text → System → System
give_up id s = give_up_by (find_task id s.tasks) id s

-- A new process: what the old one held in memory is gone.
unfoldable pub restart : ℕ → System → System
restart now s = record {
  manager = (mark_orphans now (record s.manager { active_jobs = [] })).0;
  tasks = [];
  claimed = [];
}

-- The client's submission; a refused one changes nothing.
unfoldable pub enqueue : Text → Text → Text → Option Text → ℕ → System → System
enqueue id kind workspace batch now s = elim (write_pending id kind workspace batch now s.manager) [
  | none ↦ s
  | some m ↦ record s { manager = m }
]

-- The client's request to cancel, and its write of CANCELLED that follows.
abbrev pub ask : Text → System → System
ask id s = record s { manager = ask_request id s.manager }

abbrev pub mark : Text → ℕ → System → System
mark id now s = record s { manager = write_cancelled id now s.manager }

-- The systems that the client and the daemons reach from an empty store, in any order of their steps.
-- The client's write of CANCELLED may come at any time while its cancel file is there or the job has no
-- worker: a new daemon that starts a worker before that write is left out, and a cancel file that cannot
-- be written. A worker that gives up has not had a slot, so that its job is not marked as running.
pub data Reachable : System → Type 0 where
  start :
      (cap : ℕ)
      → Reachable (record {
        manager = record {
          store = [];
          logs = [];
          sentinels = [];
          active_jobs = [];
          max_stored = cap;
        };
        tasks = [];
        claimed = [];
      })
  enqueues :
      (id kind workspace : Text) (batch : Option Text) (now : ℕ) {s : System}
      → get_job_state id s.manager.store ≡ none
      → Reachable s
      → Reachable (enqueue id kind workspace batch now s)
  asks : (id : Text) {s : System} → Reachable s → Reachable (ask id s)
  marks :
      (id : Text) (now : ℕ) {s : System}
      → (mem_text id s.manager.sentinels ≡ true) ⊎ (find_task id s.tasks ≡ none)
      → Reachable s
      → Reachable (mark id now s)
  visits :
      (allow : Bool) (id : Text) (now : ℕ) {s : System}
      → Reachable s
      → Reachable (visit allow id now s)
  prunes : {s : System} → Reachable s → Reachable (prune s)
  works :
      (id : Text) (move : Move) (now : ℕ) {s : System}
      → Reachable s
      → Reachable (work id move now s)
  gives_up :
      (id : Text) {s : System}
      → is_running (get_job_state id s.manager.store) ≡ false
      → Reachable s
      → Reachable (give_up id s)
  restarts : (now : ℕ) {s : System} → Reachable s → Reachable (restart now s)
