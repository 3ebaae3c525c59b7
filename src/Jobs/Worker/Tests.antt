-- ===== src/Jobs/Worker/Tests.antt =====
-- A worker whose job is cancelled.
use super_opencode.Base.{◌≡◌, refl, false, none, some, List, [], ◌∷◌, codes, text_eq}
use super_opencode.Jobs.States.{running, cancelled, failed}
use super_opencode.Jobs.Store.{Manager, request_cancel}
use super_opencode.Jobs.Worker.{Task, begins, heartbeat, end_work, fail_work}
use super_opencode.Jobs.Worker.Cancelled.{
  Turn, Between, other, saved, marked, run, AreOthers, state_of, cancelled_job_ends,
}

abbrev task : Task
task = record {
  job_id = codes "run_1";
  kind = codes "run";
  workspace = codes "/a";
  batch_id = none;
}

abbrev turn : Turn
turn = record { task = record task { job_id = codes "run_2" }; move = begins; now = 7 }

abbrev manager : Manager
manager = record {
  store =
      record {
        job_id = codes "run_1";
        kind = codes "run";
        state = running;
        workspace = codes "/a";
        batch_id = none;
        updated_at = 5;
      }
      ∷ [];
  logs = [];
  sentinels = [];
  active_jobs = record { job_id = codes "run_1"; stop_event = false } ∷ [];
  max_stored = 50;
}

abbrev between : List Between
between = saved 7 ∷ other turn ∷ marked 8 ∷ saved 9 ∷ []

others : AreOthers task.job_id between
unfolding AreOthers text_eq
others = (refl, tt)

cancelled_job_ends_example :
    let n = run task between (request_cancel task.job_id manager) in
    (((heartbeat task 10 n).1 ≡ false)
      × (state_of task.job_id (heartbeat task 10 n).0 ≡ some cancelled))
    × (((end_work task [] 10 n).1 ≡ false)
        × (state_of task.job_id (end_work task [] 10 n).0 ≡ some cancelled))
    × (((fail_work task 10 n).1 ≡ false)
        × (state_of task.job_id (fail_work task 10 n).0 ≡ some failed))
cancelled_job_ends_example = cancelled_job_ends task between [] 10 manager others
