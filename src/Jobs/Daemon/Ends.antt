-- ===== src/Jobs/Daemon/Ends.antt =====
-- services/jobs/job_manager.py: the steps of a worker, its end included, keep a system sound.
use super_opencode.Base.{
  ℕ, ◌≡◌, ◌∙◌, refl, sym, ap, subst, Bool, true, false, Option, some, arith, inl, inr,
  if◌then◌else◌, Bool-cases, Option-cases, Text, mem_text, text_eq, text_eq_iff,
}
use super_opencode.Jobs.Store.{Job, Manager, get_job_state}
use super_opencode.Jobs.Worker.{Task, Move, step, leave}
use super_opencode.Jobs.Daemon.{
  System, is_running, find_task, retire, work, work_by, give_up, give_up_by,
}
use super_opencode.Jobs.Daemon.Frames.{Frame, stopping, step-Frame, leave-Frame}
use super_opencode.Jobs.Daemon.Apart.{clash, seen, IsApart, put-IsApart, stop-free}
use super_opencode.Jobs.Daemon.Workers.{fits, step-IsFree, step-fits}
use super_opencode.Jobs.Daemon.Tasks.{
  AreAlone, retire-AreAlone, find-retire_other, find_task-job_id,
}
use super_opencode.Jobs.Daemon.Sound.{IsSound, is_owned, manage-IsSound, fits-claimed}

-- The end of a worker, with a change of the manager about its job.
retired-IsSound :
    (id : Text) (n : Manager) (s : System)
    → Frame id s.manager n
    → ((o : Option Job) → clash (seen id s.manager) o ≡ false → clash (seen id n) o ≡ false)
    → IsSound s
    → IsSound (record s { manager = n; tasks = retire id s.tasks })
unfolding is_owned IsApart AreAlone fits
retired-IsSound id n s f free h = record {
  apart = put-IsApart id s.manager n f (λ k apart. free _ (h.apart id k apart)) h.apart;
  owned = λ k. elim (Bool-cases (text_eq id k)) [
    | inl same ↦
        let e = (text_eq_iff id k).0 same in
        ap (λ o. fits o (get_job_state k n.store) (stopping k n) (mem_text k s.claimed))
          (ap (λ z. find_task k (retire z s.tasks)) e ∙ h.alone k)
    | inr other ↦ ground (
      arith,
      h.owned k,
      f.same_job k other,
      f.same_stop k other,
      find-retire_other id k s.tasks other,
    )
  ];
  alone = retire-AreAlone id s.tasks h.alone;
}

worked-IsSound :
    (t : Task) (move : Move) (now : ℕ) (s : System)
    → find_task t.job_id s.tasks ≡ some t
    → IsSound s
    → IsSound (work_by (some t) t.job_id move now s)
unfolding work_by is_owned
worked-IsSound t move now s found h = either (step t move now s.manager).1 refl
  where
    n : Manager
    n = (step t move now s.manager).0

    own :
        fits
          (some t)
          (get_job_state t.job_id s.manager.store)
          (stopping t.job_id s.manager)
          (mem_text t.job_id s.claimed)
        ≡ true
    own =
        sym (
          ap
            (λ o.
              fits o (get_job_state t.job_id s.manager.store) (stopping t.job_id s.manager)
                (mem_text t.job_id s.claimed))
            found)
        ∙ h.owned t.job_id

    free :
        (o : Option Job)
        → clash (seen t.job_id s.manager) o ≡ false
        → clash (seen t.job_id n) o ≡ false
    free o f =
        (step-IsFree t now s.manager (mem_text t.job_id s.claimed) o move own
          (record { free = f })).free

    either :
        (b : Bool)
        → b ≡ (step t move now s.manager).1
        → IsSound (record s { manager = n; tasks = if b then s.tasks else retire t.job_id s.tasks })
    either true e =
        manage-IsSound t.job_id n s (step-Frame t move now s.manager) free
          (ap
              (λ o.
                fits o (get_job_state t.job_id n.store) (stopping t.job_id n)
                  (mem_text t.job_id s.claimed))
              found
            ∙ ap (fits (some t) (get_job_state t.job_id n.store) (stopping t.job_id n))
                (fits-claimed t _ _ _ own)
            ∙ step-fits t move now s.manager (stopping t.job_id n) (sym e))
          h
    either false e = retired-IsSound t.job_id n s (step-Frame t move now s.manager) free h

pub work-IsSound :
    (id : Text) (move : Move) (now : ℕ) (s : System) → IsSound s → IsSound (work id move now s)
unfolding work work_by
work-IsSound id move now s h = elim (Option-cases (find_task id s.tasks)) [
  | inl e ↦ rw e h
  | inr (t, e) ↦
      let same = find_task-job_id id s.tasks t e in
      rw e (
        subst (λ z. IsSound (work_by (some t) z move now s)) same
          (worked-IsSound t move now s (ap (λ z. find_task z s.tasks) same ∙ e) h))
]

pub give_up-IsSound :
    (id : Text) (s : System)
    → is_running (get_job_state id s.manager.store) ≡ false
    → IsSound s
    → IsSound (give_up id s)
unfolding give_up give_up_by
give_up-IsSound id s idle h = elim (Option-cases (find_task id s.tasks)) [
  | inl e ↦ rw e h
  | inr (t, e) ↦
      let same = find_task-job_id id s.tasks t e in
      rw e (
        subst (λ z. IsSound (record s { manager = leave t s.manager; tasks = retire z s.tasks }))
          same
          (retired-IsSound t.job_id (leave t s.manager) s (leave-Frame t s.manager)
            (λ o free.
              stop-free (get_job_state t.job_id s.manager.store) o (stopping t.job_id s.manager)
                (stopping t.job_id (leave t s.manager))
                (λ gone. inr (ap (λ z. is_running (get_job_state z s.manager.store)) same ∙ idle))
                free)
            h))
]
