-- ===== src/Jobs/Daemon/Sound.antt =====
-- services/jobs/worker_service.py with services/jobs/job_manager.py and services/jobs/store_client.py:
-- what holds of the store and of the workers in every reachable system.
use super_opencode.Base.{
  ℕ, ◌≡◌, ◌∙◌, refl, ◌≢◌, ◌⊎◌, sym, ap, subst, Bool, true, false, Option, none, some, List, arith,
  inl, inr, Bool-cases, Option-cases, Text, mem_text, text_eq, text_eq_iff, text_eq_refl,
}
use super_opencode.Jobs.States.{cancelled, is_active, is_terminal}
use super_opencode.Jobs.Store.{
  Job, Manager, get_job_state, update_state, with_state, cancel_job, cancel_if_live,
  prune_stored_jobs, add,
}
use super_opencode.Jobs.Store.Records.{get-updated}
use super_opencode.Jobs.Client.{write_cancelled, write_request, ask_request}
use super_opencode.Jobs.Worker.{Task}
use super_opencode.Jobs.Daemon.{System, find_task, prune, ask, mark}
use super_opencode.Jobs.Daemon.Frames.{
  Frame, stopping, mem-add, cancel_job-Frame, write_cancelled-Frame, write_request-Frame,
}
use super_opencode.Jobs.Daemon.Apart.{
  clash, view, seen, IsApart, put-IsApart, update-free, stop-free,
}
use super_opencode.Jobs.Daemon.Workers.{fits}
use super_opencode.Jobs.Daemon.Tasks.{AreAlone}

-- whether the worker of a job, if there is one, fits the job's record
unfoldable pub is_owned : Text → System → Bool
is_owned id s =
    fits (find_task id s.tasks) (get_job_state id s.manager.store) (stopping id s.manager)
      (mem_text id s.claimed)

pub record IsSound (s : System) : Type 0 where
  pub apart : IsApart s.manager
  pub owned : (id : Text) → is_owned id s ≡ true
  pub alone : AreAlone s.tasks

-- A change of the manager about one job.
pub manage-IsSound :
    (id : Text) (n : Manager) (s : System)
    → Frame id s.manager n
    → ((o : Option Job) → clash (seen id s.manager) o ≡ false → clash (seen id n) o ≡ false)
    → is_owned id (record s { manager = n }) ≡ true
    → IsSound s
    → IsSound (record s { manager = n })
unfolding is_owned IsApart
manage-IsSound id n s f free own h = record {
  apart = put-IsApart id s.manager n f (λ k apart. free _ (h.apart id k apart)) h.apart;
  owned = λ k. elim (Bool-cases (text_eq id k)) [
    | inl same ↦
        subst (λ z. is_owned z (record s { manager = n }) ≡ true) ((text_eq_iff id k).0 same) own
    | inr other ↦ ground (arith, h.owned k, f.same_job k other, f.same_stop k other)
  ];
  alone = h.alone;
}

-- A cancelled record, with a cancel file, fits whatever worker fitted the old one.
cancelled-fits :
    (t : Option Task) (o : Option Job) (id : Text) (now : ℕ) (stop claimed : Bool)
    → fits t o stop claimed ≡ true
    → fits t (some (with_state id cancelled now o)) true claimed ≡ true
unfolding fits with_state is_active is_terminal
cancelled-fits none o id now stop claimed h = refl
cancelled-fits (some t) none id now stop claimed h = cc
cancelled-fits (some t) (some j) id now stop claimed h = ground (arith, h)

-- the write of CANCELLED, where the cancel file is there or the job has no worker
pub cancelled-IsSound :
    (id : Text) (now : ℕ) (n : Manager) (s : System)
    → Frame id s.manager n
    → n.store ≡ update_state id cancelled now s.manager.store
    → (stopping id n ≡ true) ⊎ (find_task id s.tasks ≡ none)
    → IsSound s
    → IsSound (record s { manager = n })
unfolding is_owned is_active fits
cancelled-IsSound id now n s f stored stop h =
    let o = get_job_state id s.manager.store in
    let t = find_task id s.tasks in
    let claimed = mem_text id s.claimed in
    let written = ap (get_job_state id) stored ∙ get-updated id cancelled now s.manager.store in
    manage-IsSound id n s f
      (λ p free.
        ap (λ js. clash (view (get_job_state id js) (stopping id n)) p) stored
        ∙ update-free id cancelled now s.manager.store (stopping id n) p refl)
      (ap (λ r. fits t r (stopping id n) claimed) written ∙ (elim stop [
        | inl asked ↦
            ap (λ b. fits t (some (with_state id cancelled now o)) b claimed) asked
            ∙ cancelled-fits t o id now (stopping id s.manager) claimed (h.owned id)
        | inr lone ↦
            ap (λ r. fits r (some (with_state id cancelled now o)) (stopping id n) claimed) lone
      ]))
      h

stop-added : (id : Text) (ids : List Text) → mem_text id (add id ids) ≡ true
stop-added id ids = ground (arith, mem-add id id ids, text_eq_refl id)

cancel_job-IsSound :
    (id : Text) (now : ℕ) (s : System)
    → IsSound s
    → IsSound (record s { manager = cancel_job id now s.manager })
unfolding cancel_job
cancel_job-IsSound id now s h =
    cancelled-IsSound id now (cancel_job id now s.manager) s (cancel_job-Frame id now s.manager)
      refl (inl (stop-added id s.manager.sentinels)) h

pub cancel_if_live-IsSound :
    (id : Text) (now : ℕ) (s : System)
    → IsSound s
    → IsSound (record s { manager = (cancel_if_live id now s.manager).0 })
unfolding cancel_if_live
cancel_if_live-IsSound id now s h =
    let done = cancel_job-IsSound id now s h in ground (arith, h, done)

pub mark-IsSound :
    (id : Text) (now : ℕ) (s : System)
    → (mem_text id s.manager.sentinels ≡ true) ⊎ (find_task id s.tasks ≡ none)
    → IsSound s
    → IsSound (mark id now s)
mark-IsSound id now s stop h =
    cancelled-IsSound id now (write_cancelled id now s.manager) s
      (write_cancelled-Frame id now s.manager) refl stop h

-- A worker that fits its record still does when it is asked to stop.
stopped-fits :
    (t : Option Task) (o : Option Job) (before claimed : Bool)
    → fits t o before claimed ≡ true
    → fits t o true claimed ≡ true
unfolding fits
stopped-fits none o before claimed h = refl
stopped-fits (some t) none before claimed h = h
stopped-fits (some t) (some j) before claimed h = ground (arith, h)

request-IsSound :
    (id : Text) (s : System)
    → IsSound s
    → IsSound (record s { manager = write_request id s.manager })
unfolding is_owned
request-IsSound id s h =
    let o = get_job_state id s.manager.store in
    let n : Manager = write_request id s.manager in
    let asked = stop-added id s.manager.sentinels in
    manage-IsSound id n s (write_request-Frame id s.manager)
      (λ p free.
        stop-free o p (stopping id s.manager) (stopping id n)
          (λ gone. absurd (true_is_not_false (sym asked ∙ gone))) free)
      (ap (λ b. fits (find_task id s.tasks) o b (mem_text id s.claimed)) asked
        ∙ stopped-fits (find_task id s.tasks) o (stopping id s.manager) (mem_text id s.claimed)
            (h.owned id))
      h
  where
    true_is_not_false : true ≢ false
    true_is_not_false e = cc

pub ask-IsSound : (id : Text) (s : System) → IsSound s → IsSound (ask id s)
unfolding ask_request
ask-IsSound id s h = let done = request-IsSound id s h in ground (arith, h, done)

pub prune-IsSound : (s : System) → IsSound s → IsSound (prune s)
unfolding prune_stored_jobs is_owned IsApart
prune-IsSound s h = record {
  apart = λ i k other. ground (arith, h.apart i k other);
  owned = λ id. ground (arith, h.owned id);
  alone = h.alone;
}

pub fits-claimed :
    (t : Task) (o : Option Job) (stop claimed : Bool)
    → fits (some t) o stop claimed ≡ true
    → claimed ≡ true
unfolding fits
fits-claimed t none stop claimed h = cc
fits-claimed t (some j) stop claimed h = ground (arith, h)

-- An inactive state for the job of an id, which has no worker.
pub idle-IsSound :
    (id : Text) (n : Manager) (s : System)
    → Frame id s.manager n
    → ((o : Option Job) → clash (seen id s.manager) o ≡ false → clash (seen id n) o ≡ false)
    → find_task id s.tasks ≡ none
    → IsSound s
    → IsSound (record s { manager = n })
unfolding is_owned fits
idle-IsSound id n s f free lone h =
    manage-IsSound id n s f free
      (ap (λ o. fits o (get_job_state id n.store) (stopping id n) (mem_text id s.claimed)) lone) h

pub unclaimed :
    (id : Text) (s : System)
    → IsSound s
    → mem_text id s.claimed ≡ false
    → find_task id s.tasks ≡ none
unfolding is_owned fits
unclaimed id s h new = elim (Option-cases (find_task id s.tasks)) [
  | inl e ↦ e
  | inr (t, e) ↦
      let own =
        sym (
          ap
            (λ o.
              fits o (get_job_state id s.manager.store) (stopping id s.manager)
                (mem_text id s.claimed))
            e)
        ∙ h.owned id in
      let claimed =
        fits-claimed t (get_job_state id s.manager.store) (stopping id s.manager)
          (mem_text id s.claimed) own in
      ground (arith, claimed, new)
]
