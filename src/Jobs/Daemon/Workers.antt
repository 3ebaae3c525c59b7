-- ===== src/Jobs/Daemon/Workers.antt =====
-- services/jobs/job_manager.py: what a worker that owns its job makes of the job's record.
use super_opencode.Base.{
  ℕ, ◌≡◌, ◌∙◌, refl, sym, ap, Bool, true, false, ◌&&◌, ◌||◌, Option, none, some, List, [], ◌∷◌,
  reverse, arith, ◌⊎◌, inl, inr, Option-cases, if◌then◌else◌, Text, mem_text, text_eq, text_eq_iff,
  text_eq_refl,
}
use super_opencode.Jobs.States.{JobState, cancelled, failed, is_active, is_terminal}
use super_opencode.Jobs.Outcome.{final_state_from_logs, closing_state, is_error, scan}
use super_opencode.Jobs.Store.{Job, Manager, get_job_state}
use super_opencode.Jobs.Store.Records.{get-saved}
use super_opencode.Jobs.Worker.{
  Task, Move, begins, beats, saves, closes, fails, ends, step, begin_work, heartbeat, end_work,
  fail_work, leave, set_state, stop_work, stop_requested, mark_running, running_job,
}
use super_opencode.Jobs.Daemon.{is_running}
use super_opencode.Jobs.Daemon.Frames.{stopping}
use super_opencode.Jobs.Daemon.Apart.{clash, view, seen, same-free, update-free, stop-free}

-- Whether a worker, if there is one, fits the record of its job: it is claimed, and the record is of
-- its workspace, and active, or final with the worker asked to stop.
unfoldable pub fits : Option Task → Option Job → Bool → Bool → Bool
fits none o stop claimed = true
fits (some t) none stop claimed = false
fits (some t) (some j) stop claimed =
    claimed
    && text_eq j.workspace t.workspace
    && (is_active j.state || (is_terminal j.state && stop))

scan-idle : (levels : List Text) (broken : Bool) → is_active (scan levels broken) ≡ false
unfolding scan closing_state is_active
scan-idle [] broken = refl
scan-idle (level ∷ older) broken =
    let rest = scan-idle older (broken || is_error level) in ground (arith, rest)

final-idle : (levels : List Text) → is_active (final_state_from_logs levels) ≡ false
unfolding final_state_from_logs
final-idle levels = scan-idle (reverse levels) false

-- The record of the worker's job clashes with no record of `o`.
pub record IsFree (t : Task) (o : Option Job) (m : Manager) : Type 0 where
  pub free : clash (seen t.job_id m) o ≡ false

marked-fits :
    (t : Task) (now : ℕ) (m : Manager) (stop : Bool)
    → fits (some t) (get_job_state t.job_id (mark_running t now m).store) stop true ≡ true
unfolding fits is_active
marked-fits t now m stop =
    ap (λ r. fits (some t) r stop true) (get-saved (running_job t now) m.store)
    ∙ ground (arith, text_eq_refl t.workspace)

run-free :
    (t : Task) (now : ℕ) (p o : Option Job) (stop claimed : Bool)
    → fits (some t) p stop claimed ≡ true
    → clash (view p stop) o ≡ false
    → clash (view (some (running_job t now)) stop) o ≡ false
unfolding view is_running clash
run-free t now p o true claimed h free = refl
run-free t now none o false claimed h free = unfold fits in cc
run-free t now (some j) o false claimed h free =
    same-free (running_job t now) j o (unfold fits in ground (arith, h))
      (sym ((text_eq_iff j.workspace t.workspace).0 (unfold fits in ground (arith, h))))
      (ground (arith, free))

module _ (t : Task) (now : ℕ) (m : Manager) (claimed : Bool) (o : Option Job) where
  -- Marking its job as running clashes with no new record.
  marked-IsFree :
      fits (some t) (get_job_state t.job_id m.store) (stopping t.job_id m) claimed ≡ true
      → IsFree t o m
      → IsFree t o (mark_running t now m)
  marked-IsFree h f = record {
    free =
        ap (λ r. clash (view r (stopping t.job_id m)) o) (get-saved (running_job t now) m.store)
        ∙ run-free t now (get_job_state t.job_id m.store) o (stopping t.job_id m) claimed h f.free;
  }

  set_state-IsFree :
      (state : JobState) → is_active state ≡ false → IsFree t o (leave t (set_state t state now m))
  set_state-IsFree state idle = record { free = update-free t.job_id state now m.store _ o idle }

  leave-IsFree :
      stopping t.job_id m ≡ false ⊎ is_running (get_job_state t.job_id m.store) ≡ false
      → IsFree t o m
      → IsFree t o (leave t m)
  leave-IsFree h f = record {
    free =
        stop-free (get_job_state t.job_id m.store) o (stopping t.job_id m)
          (stopping t.job_id (leave t m)) (λ gone. h) f.free;
  }

  stop_work-IsFree : IsFree t o m → IsFree t o (stop_work t now m)
  unfolding is_active
  stop_work-IsFree f = either (mem_text t.job_id m.sentinels) refl
    where
      either :
          (b : Bool)
          → mem_text t.job_id m.sentinels ≡ b
          → IsFree t o (leave t (if b then set_state t cancelled now m else m))
      either true e = set_state-IsFree cancelled refl
      either false e = leave-IsFree (inl e) f

  ended-IsFree :
      (j : Job)
      → get_job_state t.job_id m.store ≡ some j
      → is_terminal j.state ≡ true
      → IsFree t o m
      → IsFree t o (leave t m)
  unfolding is_running is_terminal
  ended-IsFree j stored final f =
      leave-IsFree (inr (ap is_running stored ∙ ground (arith, final))) f

  begin-IsFree :
      fits (some t) (get_job_state t.job_id m.store) (stopping t.job_id m) claimed ≡ true
      → IsFree t o m
      → IsFree t o (begin_work t now m).0
  unfolding begin_work
  begin-IsFree h f = elim (Option-cases (get_job_state t.job_id m.store)) [
    | inl e ↦ rw (begin_work, e) (marked-IsFree h f)
    | inr (j, e) ↦
        rw (begin_work, e)
          (let marked = marked-IsFree h f in
            let ended = ended-IsFree j e in ground (arith, marked, ended, f))
  ]

  -- A step writes no record that clashes with one that the old record did not clash with.
  pub step-IsFree :
      (move : Move)
      → fits (some t) (get_job_state t.job_id m.store) (stopping t.job_id m) claimed ≡ true
      → IsFree t o m
      → IsFree t o (step t move now m).0
  unfolding step heartbeat end_work fail_work stop_requested is_active
  step-IsFree begins h f = begin-IsFree h f
  step-IsFree beats h f =
      let marked = marked-IsFree h f in
      let stopped = stop_work-IsFree f in ground (arith, marked, stopped)
  step-IsFree saves h f = marked-IsFree h f
  step-IsFree fails h f = set_state-IsFree failed refl
  step-IsFree (closes levels) h f =
      set_state-IsFree (final_state_from_logs levels) (final-idle levels)
  step-IsFree (ends levels) h f =
      let closed = set_state-IsFree (final_state_from_logs levels) (final-idle levels) in
      let stopped = stop_work-IsFree f in ground (arith, closed, stopped)

-- A worker that goes on fits the record that it writes.
pub step-fits :
    (t : Task) (move : Move) (now : ℕ) (m : Manager) (stop : Bool)
    → (step t move now m).1 ≡ true
    → fits (some t) (get_job_state t.job_id (step t move now m).0.store) stop true ≡ true
unfolding step begin_work heartbeat end_work fail_work
step-fits t begins now m stop h = let marked = marked-fits t now m stop in ground (arith, marked, h)
step-fits t beats now m stop h = let marked = marked-fits t now m stop in ground (arith, marked, h)
step-fits t saves now m stop h = marked-fits t now m stop
step-fits t (closes levels) now m stop h = cc
step-fits t fails now m stop h = cc
step-fits t (ends levels) now m stop h = ground (arith, h)
