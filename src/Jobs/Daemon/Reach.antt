-- ===== src/Jobs/Daemon/Reach.antt =====
-- services/jobs/worker_service.py with services/jobs/job_manager.py and services/jobs/store_client.py:
-- the jobs and the workers of every reachable system.
use super_opencode.Base.{
  ℕ, ◌≡◌, ◌∙◌, refl, sym, ap, ap₂, ◌&&◌, Bool, true, false, Option, none, some, arith, Text,
  mem_text, text_eq, text_eq_iff,
}
use super_opencode.Jobs.Store.{Job, Manager, get_job_state, cancel_if_live}
use super_opencode.Jobs.States.{is_active}
use super_opencode.Jobs.Worker.{Task}
use super_opencode.Jobs.Daemon.{
  System, find_task, retire, visit, is_running, Reachable, start, enqueues, asks, marks, visits,
  prunes, works, gives_up, restarts,
}
use super_opencode.Jobs.Daemon.Frames.{stopping}
use super_opencode.Jobs.Daemon.Apart.{clash, view, seen, IsApart}
use super_opencode.Jobs.Daemon.Workers.{fits}
use super_opencode.Jobs.Daemon.Tasks.{AreAlone}
use super_opencode.Jobs.Daemon.Sound.{IsSound, is_owned, ask-IsSound, mark-IsSound, prune-IsSound}
use super_opencode.Jobs.Daemon.Ends.{work-IsSound, give_up-IsSound}
use super_opencode.Jobs.Daemon.Steps.{visit-IsSound, enqueue-IsSound, restart-IsSound}

reachable-IsSound : {s : System} → Reachable s → IsSound s
unfolding IsApart AreAlone get_job_state view is_running clash is_owned fits find_task retire
reachable-IsSound (start cap) = record {
  apart = λ i k apart. refl;
  owned = λ id. refl;
  alone = λ id. refl;
}
reachable-IsSound (enqueues id kind workspace batch now {s} fresh r) =
    enqueue-IsSound id kind workspace batch now s fresh (reachable-IsSound r)
reachable-IsSound (asks id {s} r) = ask-IsSound id s (reachable-IsSound r)
reachable-IsSound (marks id now {s} safe r) = mark-IsSound id now s safe (reachable-IsSound r)
reachable-IsSound (visits allow id now {s} r) = visit-IsSound allow id now s (reachable-IsSound r)
reachable-IsSound (prunes {s} r) = prune-IsSound s (reachable-IsSound r)
reachable-IsSound (works id move now {s} r) = work-IsSound id move now s (reachable-IsSound r)
reachable-IsSound (gives_up id {s} idle r) = give_up-IsSound id s idle (reachable-IsSound r)
reachable-IsSound (restarts now {s} r) = restart-IsSound now s (reachable-IsSound r)

-- In every system that the client, the daemon and its workers reach, in any order of submissions,
-- requests to cancel, claims, restarts and of the workers' checks and writes, two jobs that are pending
-- or running are in different workspaces, unless one of them is marked as running while its cancel
-- file is there, which a worker's late write may do.
pub active_jobs_are_apart :
    {s : System} (i k : Text) (j l : Job)
    → Reachable s
    → text_eq i k ≡ false
    → get_job_state i s.manager.store ≡ some j
    → get_job_state k s.manager.store ≡ some l
    → is_active j.state ≡ true
    → is_active l.state ≡ true
    → (is_running (some j) && stopping i s.manager) ≡ false
    → (is_running (some l) && stopping k s.manager) ≡ false
    → text_eq j.workspace l.workspace ≡ false
unfolding IsApart view clash super_opencode.Jobs.Store.Exclusive.clashes
active_jobs_are_apart {s} i k j l r apart stored stored' active active' certain certain' =
    let shown : seen i s.manager ≡ some j = ground (arith, stored, certain) in
    let shown' : seen k s.manager ≡ some l = ground (arith, stored', certain') in
    let h = (reachable-IsSound r).apart i k apart in
    let free = sym (ap₂ clash shown shown') ∙ h in ground (arith, free, active, active')

fit-apart :
    (t u : Task) (o p : Option Job) (c d : Bool)
    → fits (some t) o false c ≡ true
    → fits (some u) p false d ≡ true
    → clash o p ≡ false
    → text_eq t.workspace u.workspace ≡ false
unfolding clash super_opencode.Jobs.Store.Exclusive.clashes fits
fit-apart t u none p c d h k free = cc
fit-apart t u (some j) none c d h k free = cc
fit-apart t u (some j) (some l) c d h k free = ground (
  arith,
  h,
  k,
  free,
  text_eq_iff j.workspace t.workspace,
  text_eq_iff l.workspace u.workspace,
  text_eq_iff t.workspace u.workspace,
  text_eq_iff j.workspace l.workspace,
)

owned_by :
    {s : System} (id : Text) (t : Task)
    → IsSound s
    → find_task id s.tasks ≡ some t
    → stopping id s.manager ≡ false
    → fits (some t) (get_job_state id s.manager.store) false (mem_text id s.claimed) ≡ true
unfolding is_owned
owned_by {s} id t h living going =
    let o = get_job_state id s.manager.store in
    let c = mem_text id s.claimed in
    sym (ap (λ r. fits r o false c) living)
    ∙ sym (ap (λ b. fits (find_task id s.tasks) o b c) going)
    ∙ h.owned id

view-going : (o : Option Job) (stop : Bool) → stop ≡ false → view o stop ≡ o
unfolding view
view-going o stop h = ground (arith, h)

-- Two workers of different jobs that live at the same time, and whose cancel files are not there, work in
-- different workspaces.
pub workers_are_apart :
    {s : System} (i k : Text) (t u : Task)
    → Reachable s
    → text_eq i k ≡ false
    → find_task i s.tasks ≡ some t
    → find_task k s.tasks ≡ some u
    → stopping i s.manager ≡ false
    → stopping k s.manager ≡ false
    → text_eq t.workspace u.workspace ≡ false
unfolding IsApart
workers_are_apart {s} i k t u r apart living living' going going' =
    let h = reachable-IsSound r in
    let o = get_job_state i s.manager.store in
    let p = get_job_state k s.manager.store in
    fit-apart t u o p _ _ (owned_by i t h living going) (owned_by k u h living' going')
      (sym (ap₂ clash (view-going o _ going) (view-going p _ going')) ∙ h.apart i k apart)

-- A job has one worker at most. While it lives its job is claimed, so that no visit of the daemon
-- starts another one.
pub job_has_one_worker :
    {s : System} (id : Text) (t : Task) (allow : Bool) (now : ℕ)
    → Reachable s
    → find_task id s.tasks ≡ some t
    → (find_task id (retire id s.tasks) ≡ none)
      × (mem_text id s.claimed ≡ true)
      × ((visit allow id now s).tasks ≡ s.tasks)
unfolding is_owned fits AreAlone visit
job_has_one_worker {s} id t allow now r living =
    let sound = reachable-IsSound r in
    let own = sound.owned id in
    let claimed : mem_text id s.claimed ≡ true = ground (arith, own, living) in
    (sound.alone id, claimed, ground (arith, claimed))
