-- ===== src/Jobs/Daemon/Tests.antt =====
-- A daemon with two jobs.
use super_opencode.Base.{◌≡◌, refl, true, false, none, some, [], codes, Text, text_eq, mem_text}
use super_opencode.Jobs.States.{pending, running, is_active}
use super_opencode.Jobs.Store.{
  Job, get_job_state, pending_job, is_taken, save_job_state, run_stored_job, add_entry,
  update_state, with_state,
}
use super_opencode.Jobs.Client.{write_pending, ask_request}
use super_opencode.Jobs.Worker.{begins, saves, step, begin_work}
use super_opencode.Jobs.Daemon.{
  visit_new, work, work_by, ask, mark, System, Reachable, start, enqueues, visits, enqueue, visit,
  find_task, retire, task_of, is_running,
}
use super_opencode.Jobs.Daemon.Frames.{stopping}
use super_opencode.Jobs.Daemon.Reach.{active_jobs_are_apart, workers_are_apart, job_has_one_worker}

abbrev a : Text
a = codes "run_a"

abbrev b : Text
b = codes "run_b"

abbrev job_a : Job
job_a = pending_job a (codes "run") (codes "/a") none 1

abbrev job_b : Job
job_b = pending_job b (codes "run") (codes "/b") none 2

abbrev empty : System
empty = record {
  manager = record { store = []; logs = []; sentinels = []; active_jobs = []; max_stored = 50 };
  tasks = [];
  claimed = [];
}

abbrev one : System
one = enqueue a (codes "run") (codes "/a") none 1 empty

abbrev two : System
two = enqueue b (codes "run") (codes "/b") none 2 one

-- both jobs claimed
abbrev both : System
both = visit true b 4 (visit true a 3 two)

reachable_one : Reachable one
unfolding get_job_state
reachable_one = enqueues a (codes "run") (codes "/a") none 1 refl (start 50)

reachable : Reachable both
unfolding get_job_state enqueue write_pending is_taken save_job_state text_eq
reachable =
    visits true b 4
      (visits true a 3 (enqueues b (codes "run") (codes "/b") none 2 refl reachable_one))

apart : text_eq a b ≡ false
unfolding text_eq
apart = refl

active : is_active pending ≡ true
unfolding is_active
active = refl

record AreRunning : Type 0 where
  stored_a : get_job_state a both.manager.store ≡ some job_a
  stored_b : get_job_state b both.manager.store ≡ some job_b
  living_a : find_task a both.tasks ≡ some (task_of a job_a)
  living_b : find_task b both.tasks ≡ some (task_of b job_b)
  going_a : stopping a both.manager ≡ false
  going_b : stopping b both.manager ≡ false

running_both : AreRunning
unfolding find_task get_job_state visit visit_new run_stored_job enqueue write_pending is_taken
    save_job_state add_entry text_eq mem_text is_active
running_both = record {
  stored_a = refl;
  stored_b = refl;
  living_a = refl;
  living_b = refl;
  going_a = refl;
  going_b = refl;
}

active_jobs_are_apart_example : text_eq job_a.workspace job_b.workspace ≡ false
active_jobs_are_apart_example =
    active_jobs_are_apart a b job_a job_b reachable apart running_both.stored_a
      running_both.stored_b active active (unfold is_running in refl) (unfold is_running in refl)

workers_are_apart_example : text_eq (task_of a job_a).workspace (task_of b job_b).workspace ≡ false
workers_are_apart_example =
    workers_are_apart a b (task_of a job_a) (task_of b job_b) reachable apart running_both.living_a
      running_both.living_b running_both.going_a running_both.going_b

job_has_one_worker_example :
    (find_task a (retire a both.tasks) ≡ none)
    × (mem_text a both.claimed ≡ true)
    × ((visit true a 5 both).tasks ≡ both.tasks)
job_has_one_worker_example =
    job_has_one_worker a (task_of a job_a) true 5 reachable running_both.living_a

-- A job that is cancelled after a heartbeat has checked for it, and a second one in its workspace: the
-- heartbeat's late write leaves both active.
abbrev racing : System
racing = work a saves 8 (
    enqueue b (codes "run") (codes "/a") none 7
      (mark a 6 (ask a (work a begins 5 (visit true a 3 one)))))

both_active :
    (get_job_state a racing.manager.store ≡ some (record job_a { state = running; updated_at = 8 }))
    × (get_job_state b racing.manager.store
        ≡ some (record job_b { workspace = codes "/a"; updated_at = 7 }))
unfolding find_task get_job_state visit visit_new run_stored_job enqueue write_pending is_taken
    save_job_state add_entry text_eq mem_text is_active work work_by step begin_work ask_request
    update_state with_state retire super_opencode.Jobs.States.is_terminal
both_active = (refl, refl)
