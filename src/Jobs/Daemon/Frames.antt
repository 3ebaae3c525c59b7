-- ===== src/Jobs/Daemon/Frames.antt =====
-- services/jobs/job_manager.py and services/jobs/store_client.py: an operation on one job leaves the
-- records and the stop requests of all others as they are.
use super_opencode.Base.{
  ℕ, ◌≡◌, ◌∙◌, refl, Bool, true, false, not, ◌||◌, List, [], ◌∷◌, keep, arith, if◌then◌else◌, Text,
  mem_text, text_eq, text_eq_iff, text_eq_sym,
}
use super_opencode.Jobs.States.{JobState, cancelled, failed}
use super_opencode.Jobs.Outcome.{final_state_from_logs}
use super_opencode.Jobs.Store.{
  Job, Manager, get_job_state, save_job_state, update_state, add_entry, add, cancel_job,
}
use super_opencode.Jobs.Store.Records.{get-save, get-update}
use super_opencode.Jobs.Client.{write_cancelled, write_request}
use super_opencode.Jobs.Worker.{
  Task, Move, begins, beats, saves, closes, fails, ends, step, begin_work, heartbeat, end_work,
  fail_work, leave, set_state, stop_work, mark_running, running_job,
}

-- the cancel file of a job is there
abbrev pub stopping : Text → Manager → Bool
stopping id m = mem_text id m.sentinels

-- All that `n` differs from `m` in is about the job of the id.
pub record Frame (id : Text) (m n : Manager) : Type 0 where
  pub same_job :
      (other : Text)
      → text_eq id other ≡ false
      → get_job_state other n.store ≡ get_job_state other m.store
  pub same_stop : (other : Text) → text_eq id other ≡ false → stopping other n ≡ stopping other m

pub Frame-refl : (id : Text) (m : Manager) → Frame id m m
Frame-refl id m = record { same_job = λ other apart. refl; same_stop = λ other apart. refl }

pub Frame-trans : {id : Text} {l m n : Manager} → Frame id l m → Frame id m n → Frame id l n
Frame-trans f g = record {
  same_job = λ other apart. g.same_job other apart ∙ f.same_job other apart;
  same_stop = λ other apart. g.same_stop other apart ∙ f.same_stop other apart;
}

pub save-other :
    (j : Job) (js : List Job) (other : Text)
    → text_eq j.job_id other ≡ false
    → get_job_state other (save_job_state j js) ≡ get_job_state other js
save-other j js other apart = ground (arith, get-save j other js, apart)

update-other :
    (id : Text) (state : JobState) (now : ℕ) (js : List Job) (other : Text)
    → text_eq id other ≡ false
    → get_job_state other (update_state id state now js) ≡ get_job_state other js
update-other id state now js other apart = ground (arith, get-update id other state now js, apart)

pub mem-add :
    (id k : Text) (ids : List Text) → mem_text id (add k ids) ≡ (text_eq id k || mem_text id ids)
unfolding mem_text
mem-add id k ids = ground (arith, text_eq_iff id k)

mem-dropped :
    (id k : Text) (ids : List Text)
    → text_eq k id ≡ false
    → mem_text id (keep (λ s. not (text_eq s k)) ids) ≡ mem_text id ids
unfolding mem_text
mem-dropped id k [] apart = refl
mem-dropped id k (i ∷ is) apart =
    ground
      (arith, mem-dropped id k is apart, apart, text_eq_iff i k, text_eq_iff id i, text_eq_iff k id)

pub set_state-Frame :
    (t : Task) (state : JobState) (now : ℕ) (m : Manager)
    → Frame t.job_id m (set_state t state now m)
set_state-Frame t state now m = record {
  same_job = update-other t.job_id state now m.store;
  same_stop = λ other apart. refl;
}

pub mark_running-Frame :
    (t : Task) (now : ℕ) (m : Manager) → Frame t.job_id m (mark_running t now m)
mark_running-Frame t now m = record {
  same_job = save-other (running_job t now) m.store;
  same_stop = λ other apart. refl;
}

pub leave-Frame : (t : Task) (m : Manager) → Frame t.job_id m (leave t m)
leave-Frame t m = record {
  same_job = λ other apart. refl;
  same_stop = λ other apart. mem-dropped other t.job_id m.sentinels apart;
}

stop_work-Frame : (t : Task) (now : ℕ) (m : Manager) → Frame t.job_id m (stop_work t now m)
stop_work-Frame t now m = Frame-trans (either (mem_text t.job_id m.sentinels)) (leave-Frame t _)
  where
    either : (b : Bool) → Frame t.job_id m (if b then set_state t cancelled now m else m)
    either true = set_state-Frame t cancelled now m
    either false = Frame-refl t.job_id m

closed-Frame :
    (t : Task) (state : JobState) (now : ℕ) (m : Manager)
    → Frame t.job_id m (leave t (set_state t state now m))
closed-Frame t state now m = Frame-trans (set_state-Frame t state now m) (leave-Frame t _)

pub step-Frame :
    (t : Task) (move : Move) (now : ℕ) (m : Manager) → Frame t.job_id m (step t move now m).0
unfolding step begin_work heartbeat end_work fail_work
step-Frame t begins now m = ground (arith, mark_running-Frame t now m, leave-Frame t m)
step-Frame t beats now m = ground (arith, mark_running-Frame t now m, stop_work-Frame t now m)
step-Frame t saves now m = mark_running-Frame t now m
step-Frame t (closes levels) now m = closed-Frame t (final_state_from_logs levels) now m
step-Frame t fails now m = closed-Frame t failed now m
step-Frame t (ends levels) now m =
    ground (arith, stop_work-Frame t now m, closed-Frame t (final_state_from_logs levels) now m)

pub cancel_job-Frame : (id : Text) (now : ℕ) (m : Manager) → Frame id m (cancel_job id now m)
unfolding cancel_job
cancel_job-Frame id now m = record {
  same_job = update-other id cancelled now m.store;
  same_stop =
      λ other apart. ground (arith, mem-add other id m.sentinels, text_eq_sym other id, apart);
}

pub write_cancelled-Frame :
    (id : Text) (now : ℕ) (m : Manager) → Frame id m (write_cancelled id now m)
write_cancelled-Frame id now m = record {
  same_job = update-other id cancelled now m.store;
  same_stop = λ other apart. refl;
}

pub write_request-Frame : (id : Text) (m : Manager) → Frame id m (write_request id m)
write_request-Frame id m = record {
  same_job = λ other apart. refl;
  same_stop =
      λ other apart. ground (arith, mem-add other id m.sentinels, text_eq_sym other id, apart);
}

pub add_entry-Frame :
    (id : Text) (m : Manager) → Frame id m (record m { active_jobs = add_entry id m.active_jobs })
unfolding add_entry
add_entry-Frame id m = record { same_job = λ other apart. refl; same_stop = λ other apart. refl }
