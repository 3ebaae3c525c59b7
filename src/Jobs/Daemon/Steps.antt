-- ===== src/Jobs/Daemon/Steps.antt =====
-- services/jobs/worker_service.py: the steps of the daemon and of the client keep a system sound.
use super_opencode.Base.{
  ℕ, ◌≡◌, ◌∙◌, refl, sym, ap, Bool, true, false, Option, none, some, List, [], ◌∷◌, arith, inl, inr,
  if◌then◌else◌, Bool-cases, Text, mem_text, text_eq, text_eq_iff, text_eq_refl, text_eq_sym,
}
use super_opencode.Jobs.States.{JobState, cancelled, abandoned, pending, is_active}
use super_opencode.Jobs.Store.{
  Job, Manager, get_job_state, save_job_state, update_state, is_taken, pending_job, add_entry,
  run_stored_job, add,
}
use super_opencode.Jobs.Store.Records.{get-saved}
use super_opencode.Jobs.Client.{write_pending}
use super_opencode.Jobs.Worker.{Task}
use super_opencode.Jobs.Daemon.{
  System, find_task, task_of, visit, visit_new, claim_job, restart, enqueue, mark_orphans,
  mark_each, mark_abandoned, is_running,
}
use super_opencode.Jobs.Daemon.Frames.{
  Frame, save-other, add_entry-Frame, set_state-Frame, stopping,
}
use super_opencode.Jobs.Daemon.Apart.{
  clash, view, seen, IsApart, put-IsApart, update-free, untaken-free,
}
use super_opencode.Jobs.Daemon.Workers.{fits}
use super_opencode.Jobs.Daemon.Tasks.{AreAlone, add-AreAlone}
use super_opencode.Jobs.Daemon.Sound.{
  IsSound, is_owned, idle-IsSound, unclaimed, cancel_if_live-IsSound,
}

-- a job without a worker gets a state that is not active
idle_update-IsSound :
    (id : Text) (state : JobState) (now : ℕ) (logs : List Text) (s : System)
    → is_active state ≡ false
    → find_task id s.tasks ≡ none
    → IsSound s
    → IsSound (record s {
      manager = record s.manager { store = update_state id state now s.manager.store; logs = logs };
    })
idle_update-IsSound id state now logs s idle lone h =
    let t : Task = record { job_id = id; kind = []; workspace = []; batch_id = none } in
    let f = set_state-Frame t state now s.manager in
    idle-IsSound id _ s (record { same_job = f.same_job; same_stop = f.same_stop })
      (λ o free. update-free id state now s.manager.store _ o idle) lone h

started-IsSound :
    (id : Text) (j : Job) (s : System)
    → get_job_state id s.manager.store ≡ some j
    → is_active j.state ≡ true
    → mem_text id s.claimed ≡ false
    → IsSound s
    → IsSound (record {
      manager = record s.manager { active_jobs = add_entry id s.manager.active_jobs };
      tasks = task_of id j ∷ s.tasks;
      claimed = id ∷ s.claimed;
    })
unfolding is_owned find_task mem_text fits IsApart
started-IsSound id j s stored active new h =
    let f = add_entry-Frame id s.manager in
    record {
      apart = h.apart;
      owned = λ k. elim (Bool-cases (text_eq id k)) [
        | inl same ↦
            let record_of_k =
              ap (λ z. get_job_state z s.manager.store) (sym ((text_eq_iff id k).0 same))
              ∙ stored in
            ground (arith, same, record_of_k, active, text_eq_refl j.workspace, text_eq_sym id k)
        | inr other ↦ ground (arith, h.owned k, f.same_stop k other, other, text_eq_sym id k)
      ];
      alone = add-AreAlone (task_of id j) s.tasks (unclaimed id s h new) h.alone;
    }

pending_result :
    (id : Text) (now : ℕ) (j : Job) (m : Manager)
    → get_job_state id m.store ≡ some j
    → j.state ≡ pending
    → run_stored_job id now m ≡ (
        if mem_text id m.sentinels
        then (record m { store = update_state id cancelled now m.store }, false)
        else (record m { active_jobs = add_entry id m.active_jobs }, true))
unfolding run_stored_job
pending_result id now j m stored waiting = ground (arith, stored, waiting)

claim_job-IsSound :
    (id : Text) (now : ℕ) (j : Job) (s : System)
    → get_job_state id s.manager.store ≡ some j
    → j.state ≡ pending
    → mem_text id s.claimed ≡ false
    → IsSound s
    → IsSound (claim_job id now j s)
unfolding is_active
claim_job-IsSound id now j s stored waiting new h =
    rw (pending_result id now j s.manager stored waiting) (either (mem_text id s.manager.sentinels))
  where
    n : Bool → Manager × Bool
    n b =
        if b
        then (record s.manager { store = update_state id cancelled now s.manager.store }, false)
        else (record s.manager { active_jobs = add_entry id s.manager.active_jobs }, true)

    either :
        (b : Bool)
        → IsSound (
            if (n b).1
            then record {
              manager = (n b).0;
              tasks = task_of id j ∷ s.tasks;
              claimed = id ∷ s.claimed;
            }
            else record s { manager = (n b).0 })
    either true =
        idle_update-IsSound id cancelled now s.manager.logs s refl (unclaimed id s h new) h
    either false = started-IsSound id j s stored (ap is_active waiting) new h

visit_new-IsSound :
    (allow : Bool) (id : Text) (now : ℕ) (o : Option Job) (s : System)
    → get_job_state id s.manager.store ≡ o
    → mem_text id s.claimed ≡ false
    → IsSound s
    → IsSound (visit_new allow id now o s)
unfolding visit_new
visit_new-IsSound allow id now none s stored new h = h
visit_new-IsSound allow id now (some j) s stored new h =
    let claims = λ (e : j.state ≡ pending). claim_job-IsSound id now j s stored e new h in
    let stops = cancel_if_live-IsSound id now s h in ground (arith, h, claims, stops)

pub visit-IsSound :
    (allow : Bool) (id : Text) (now : ℕ) (s : System) → IsSound s → IsSound (visit allow id now s)
unfolding visit
visit-IsSound allow id now s h =
    let stops = cancel_if_live-IsSound id now s h in
    let news = visit_new-IsSound allow id now _ s refl in ground (arith, h, stops, news)

unstored :
    (id : Text) (s : System)
    → IsSound s
    → get_job_state id s.manager.store ≡ none
    → find_task id s.tasks ≡ none
unfolding is_owned fits
unstored id s h fresh = ground (arith, h.owned id, fresh)

queued-IsSound :
    (j : Job) (s : System)
    → get_job_state j.job_id s.manager.store ≡ none
    → is_taken j.workspace s.manager.store ≡ false
    → IsSound s
    → IsSound (record s { manager = record s.manager { store = save_job_state j s.manager.store } })
unfolding is_owned fits IsApart
queued-IsSound j s fresh free h =
    let n : Manager = record s.manager { store = save_job_state j s.manager.store } in
    let f : Frame j.job_id s.manager n = record {
      same_job = save-other j s.manager.store;
      same_stop = λ other apart. refl;
    } in
    record {
      apart =
          put-IsApart j.job_id s.manager n f
            (λ k apart.
              ap (λ r. clash (view r (stopping j.job_id n)) (seen k s.manager))
                (get-saved j s.manager.store)
              ∙ untaken-free j s.manager k (stopping j.job_id n) free)
            h.apart;
      owned = λ k. elim (Bool-cases (text_eq j.job_id k)) [
        | inl same ↦
            let e = (text_eq_iff j.job_id k).0 same in
            let lone = ap (λ z. find_task z s.tasks) (sym e) ∙ unstored j.job_id s h fresh in
            ap (λ o. fits o (get_job_state k n.store) (stopping k n) (mem_text k s.claimed)) lone
        | inr other ↦ ground (arith, h.owned k, f.same_job k other)
      ];
      alone = h.alone;
    }

pub enqueue-IsSound :
    (id kind workspace : Text) (batch : Option Text) (now : ℕ) (s : System)
    → get_job_state id s.manager.store ≡ none
    → IsSound s
    → IsSound (enqueue id kind workspace batch now s)
unfolding enqueue write_pending
enqueue-IsSound id kind workspace batch now s fresh h =
    let queued = λ (free : is_taken workspace s.manager.store ≡ false).
      queued-IsSound (pending_job id kind workspace batch now) s fresh free h in
    ground (arith, h, queued)

mark_each-IsSound :
    (now : ℕ) (ids : List Text) (s : System)
    → s.tasks ≡ []
    → IsSound s
    → IsSound (record s { manager = (mark_each now ids s.manager).0 })
unfolding mark_each find_task is_active
mark_each-IsSound now [] s alone h = h
mark_each-IsSound now (id ∷ ids) s alone h =
    mark_each-IsSound now ids _ alone (either (is_running (get_job_state id s.manager.store)))
  where
    lone : find_task id s.tasks ≡ none
    lone = ap (find_task id) alone

    either :
        (b : Bool)
        → IsSound (record s { manager = if b then mark_abandoned id now s.manager else s.manager })
    either true = idle_update-IsSound id abandoned now (add id s.manager.logs) s refl lone h
    either false = h

pub restart-IsSound : (now : ℕ) (s : System) → IsSound s → IsSound (restart now s)
unfolding restart mark_orphans is_owned find_task fits AreAlone super_opencode.Jobs.Daemon.retire
    IsApart
restart-IsSound now s h =
    mark_each-IsSound now _
      (record { manager = record s.manager { active_jobs = [] }; tasks = []; claimed = [] }) refl
      (record { apart = h.apart; owned = λ id. refl; alone = λ id. refl })
