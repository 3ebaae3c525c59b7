-- ===== src/Jobs/Worker/Cancelled.antt =====
-- services/jobs/job_manager.py: a request to cancel a job reaches its worker,
-- whatever is written to the job's record in between.
use super_opencode.Base.{
  ℕ, ◌≡◌, ◌∙◌, refl, ap, true, false, not, Option, none, some, List, [], ◌∷◌, keep, arith, Text,
  mem_text, text_eq, text_eq_refl, text_eq_iff,
}
use super_opencode.Jobs.States.{JobState, failed, cancelled}
use super_opencode.Jobs.Store.{Job, Manager, get_job_state, request_cancel, write_cancel}
use super_opencode.Jobs.Store.Records.{get-updated, with_state-set}
use super_opencode.Jobs.Worker.{
  Task, Move, begins, beats, saves, closes, fails, ends, step, begin_work, heartbeat, end_work,
  fail_work, stop_requested, set_state, stop_work, mark_running,
}

-- the state of the record of an id
abbrev pub state_of : Text → Manager → Option JobState
state_of id m = elim (get_job_state id m.store) [ none ↦ none | some j ↦ some j.state ]

mem-keep_other :
    (id other : Text) (ids : List Text)
    → text_eq other id ≡ false
    → mem_text other ids ≡ true
    → mem_text other (keep (λ s. not (text_eq s id)) ids) ≡ true
unfolding mem_text
mem-keep_other id other [] apart h = h
mem-keep_other id other (i ∷ is) apart h =
    let rest = mem-keep_other id other is apart in
    ground (arith, rest, h, apart, text_eq_iff other i, text_eq_iff i id, text_eq_iff other id)

state_at : Option Job → Option JobState
state_at none = none
state_at (some j) = some j.state

state_of_lem : (id : Text) (m : Manager) → state_of id m ≡ state_at (get_job_state id m.store)
unfolding state_at
state_of_lem id m = ground arith

state_of-set_state :
    (t : Task) (state : JobState) (now : ℕ) (m : Manager)
    → state_of t.job_id (set_state t state now m) ≡ some state
unfolding state_at
state_of-set_state t state now m =
    state_of_lem t.job_id (set_state t state now m)
    ∙ ap state_at (get-updated t.job_id state now m.store)
    ∙ ap some (with_state-set t.job_id state now (get_job_state t.job_id m.store))

stop_stopped :
    (t : Task) (now : ℕ) (m : Manager)
    → mem_text t.job_id m.sentinels ≡ true
    → state_of t.job_id (stop_work t now m) ≡ some cancelled
stop_stopped t now m asked = rw asked (state_of-set_state t cancelled now m)

requested :
    (t : Task) (m : Manager) → mem_text t.job_id m.sentinels ≡ true → stop_requested t m ≡ true
unfolding stop_requested
requested t m asked = ground (arith, asked)

-- A step of another worker: its task, its move, and the time.
pub record Turn : Type 0 where
  pub task : Task
  pub move : Move
  pub now : ℕ

-- What happens between the request to cancel a job and the next check of its worker: steps of other
-- workers, the worker's own write of RUNNING, which an earlier check let pass, and the canceller's write
-- of CANCELLED.
pub data Between : Type 0 where
  other : Turn → Between
  saved marked : ℕ → Between

unfoldable pub run : Task → List Between → Manager → Manager
run t [] m = m
run t (other u ∷ bs) m = run t bs (step u.task u.move u.now m).0
run t (saved now ∷ bs) m = run t bs (mark_running t now m)
run t (marked now ∷ bs) m = run t bs (write_cancel t.job_id now m)

unfoldable pub AreOthers : Text → List Between → Type 0
AreOthers id [] = Unit {0}
AreOthers id (other u ∷ bs) = (text_eq id u.task.job_id ≡ false) × AreOthers id bs
AreOthers id (saved now ∷ bs) = AreOthers id bs
AreOthers id (marked now ∷ bs) = AreOthers id bs

-- The cancel file of a job stays until its own worker leaves.
step_other-asked :
    (u : Task) (move : Move) (now : ℕ) (id : Text) (m : Manager)
    → text_eq id u.job_id ≡ false
    → mem_text id m.sentinels ≡ true
    → mem_text id (step u move now m).0.sentinels ≡ true
unfolding step begin_work heartbeat end_work fail_work
step_other-asked u begins now id m apart h =
    ground (arith, h, mem-keep_other u.job_id id m.sentinels apart h)
step_other-asked u beats now id m apart h =
    ground (arith, h, mem-keep_other u.job_id id m.sentinels apart h)
step_other-asked u saves now id m apart h = h
step_other-asked u fails now id m apart h = mem-keep_other u.job_id id m.sentinels apart h
step_other-asked u (closes levels) now id m apart h = mem-keep_other u.job_id id m.sentinels apart h
step_other-asked u (ends levels) now id m apart h =
    ground (arith, h, mem-keep_other u.job_id id m.sentinels apart h)

run-asked :
    (t : Task) (bs : List Between) (m : Manager)
    → AreOthers t.job_id bs
    → mem_text t.job_id m.sentinels ≡ true
    → mem_text t.job_id (run t bs m).sentinels ≡ true
unfolding run AreOthers
run-asked t [] m others h = h
run-asked t (other u ∷ bs) m (first, rest) h =
    run-asked t bs (step u.task u.move u.now m).0 rest
      (step_other-asked u.task u.move u.now t.job_id m first h)
run-asked t (saved now ∷ bs) m others h = run-asked t bs (mark_running t now m) others h
run-asked t (marked now ∷ bs) m others h = run-asked t bs (write_cancel t.job_id now m) others h

request-asked : (id : Text) (m : Manager) → mem_text id (request_cancel id m).sentinels ≡ true
unfolding mem_text
request-asked id m = ground (arith, text_eq_refl id)

-- After a request to cancel a job, however many steps of other workers, writes of RUNNING by the job's
-- worker and writes of CANCELLED come in between, in any order: the worker's next check, in an event or
-- at the end of its stream, is its last step and leaves the job cancelled, whatever the record said.
-- If the worker breaks instead, that is its last step and the job has failed.
pub cancelled_job_ends :
    (t : Task) (bs : List Between) (levels : List Text) (now : ℕ) (m : Manager)
    → AreOthers t.job_id bs
    → let n = run t bs (request_cancel t.job_id m) in
      (((heartbeat t now n).1 ≡ false) × (state_of t.job_id (heartbeat t now n).0 ≡ some cancelled))
      × (((end_work t levels now n).1 ≡ false)
          × (state_of t.job_id (end_work t levels now n).0 ≡ some cancelled))
      × (((fail_work t now n).1 ≡ false) × (state_of t.job_id (fail_work t now n).0 ≡ some failed))
unfolding heartbeat end_work fail_work
cancelled_job_ends t bs levels now m others =
    let n : Manager = run t bs (request_cancel t.job_id m) in
    let asked : mem_text t.job_id n.sentinels ≡ true =
      run-asked t bs (request_cancel t.job_id m) others (request-asked t.job_id m) in
    let stops = requested t n asked in
    let stopped = stop_stopped t now n asked in
    (rw stops (refl, stopped), rw stops (refl, stopped), (refl, state_of-set_state t failed now n))
