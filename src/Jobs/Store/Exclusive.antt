-- ===== src/Jobs/Store/Exclusive.antt =====
-- services/jobs/job_manager.py: no two active jobs share a workspace.
use super_opencode.Base.{
  ℕ, ◌≡◌, ◌∙◌, refl, sym, subst, Bool, true, false, ◌&&◌, Option, none, some, inl, inr, List, [],
  ◌∷◌, any, arith, Bool-cases, Text, text_eq, text_eq_sym, ap, if◌then◌else◌,
}
use super_opencode.Jobs.States.{JobState, cancelled, is_active}
use super_opencode.Jobs.Store.{
  Job, Manager, get_job_state, save_job_state, update_state, with_state, is_due, prune_stored_jobs,
  enqueue_job, is_taken, pending_job, queue_job, cancel_job, cancel_if_live, cancel_each,
  cancel_batch, run_stored_job, finish_job,
}

unfoldable pub clashes : Job → Job → Bool
clashes j k = is_active j.state && is_active k.state && text_eq j.workspace k.workspace

-- No two active jobs of the list have the same workspace.
unfoldable pub IsExclusive : List Job → Type 0
IsExclusive [] = Unit {0}
IsExclusive (j ∷ js) = (any (clashes j) js ≡ false) × IsExclusive js

clashes_sym : (j k : Job) → clashes j k ≡ false → clashes k j ≡ false
unfolding clashes
clashes_sym j k h = ground (arith, text_eq_sym k.workspace j.workspace)

any-save :
    (p : Job → Bool) (j : Job) (js : List Job)
    → any p js ≡ false
    → p j ≡ false
    → any p (save_job_state j js) ≡ false
unfolding save_job_state
any-save p j [] none_of not_j = ground arith
any-save p j (k ∷ ks) none_of not_j =
    let rest = any-save p j ks (ground arith) not_j in ground (arith, rest)

save-IsExclusive :
    (j : Job) (js : List Job)
    → any (clashes j) js ≡ false
    → IsExclusive js
    → IsExclusive (save_job_state j js)
unfolding save_job_state IsExclusive
save-IsExclusive j [] free h = (refl, tt)
save-IsExclusive j (k ∷ ks) free (first, rest) = elim (Bool-cases (text_eq k.job_id j.job_id)) [
  | inl same ↦ rw same (ground arith, rest)
  | inr other ↦ rw other (
    any-save (clashes k) j ks first (clashes_sym j k (ground arith)),
    save-IsExclusive j ks (ground arith) rest,
  )
]

inactive-free : (j : Job) (js : List Job) → is_active j.state ≡ false → any (clashes j) js ≡ false
unfolding clashes
inactive-free j [] idle = refl
inactive-free j (k ∷ ks) idle = let rest = inactive-free j ks idle in ground (arith, rest)

with_state-state :
    (id : Text) (state : JobState) (now : ℕ) (o : Option Job)
    → (with_state id state now o).state ≡ state
unfolding with_state
with_state-state id state now none = refl
with_state-state id state now (some j) = refl

update-IsExclusive :
    (id : Text) (state : JobState) (now : ℕ) (js : List Job)
    → is_active state ≡ false
    → IsExclusive js
    → IsExclusive (update_state id state now js)
unfolding update_state
update-IsExclusive id state now js idle h =
    let j : Job = with_state id state now (get_job_state id js) in
    save-IsExclusive j js
      (inactive-free j js
        (ap is_active (with_state-state id state now (get_job_state id js)) ∙ idle))
      h

cancel_job-IsExclusive :
    (id : Text) (now : ℕ) (m : Manager)
    → IsExclusive m.store
    → IsExclusive (cancel_job id now m).store
unfolding cancel_job is_active
cancel_job-IsExclusive id now m h = update-IsExclusive id cancelled now m.store refl h

cancel_each-IsExclusive :
    (batch : Text) (now : ℕ) (ids : List Text) (m : Manager)
    → IsExclusive m.store
    → IsExclusive (cancel_each batch now ids m).0.store
unfolding cancel_each
cancel_each-IsExclusive batch now [] m h = h
cancel_each-IsExclusive batch now (id ∷ ids) m h =
    cancel_each-IsExclusive batch now ids
      (if is_due batch (get_job_state id m.store) then cancel_job id now m else m)
      (either (is_due batch (get_job_state id m.store)))
  where
    either : (b : Bool) → IsExclusive (if b then cancel_job id now m else m).store
    either true = cancel_job-IsExclusive id now m h
    either false = h

no_clash :
    (workspace : Text) (j : Job) (js : List Job)
    → j.workspace ≡ workspace
    → is_taken workspace js ≡ false
    → any (clashes j) js ≡ false
unfolding clashes is_taken
no_clash workspace j [] same free = refl
no_clash workspace j (k ∷ ks) same free =
    let rest = no_clash workspace j ks same (ground arith) in
    ground (arith, rest, text_eq_sym k.workspace j.workspace)

prune-store : (m : Manager) → (prune_stored_jobs m).0.store ≡ m.store
unfolding prune_stored_jobs
prune-store m = ground arith

claimed-IsExclusive :
    (id : Text) (now : ℕ) (m : Manager)
    → IsExclusive m.store
    → IsExclusive (run_stored_job id now m).0.store
unfolding run_stored_job is_active
claimed-IsExclusive id now m h =
    let dropped = update-IsExclusive id cancelled now m.store refl h in ground (arith, h, dropped)

cancel_if_live-IsExclusive :
    (id : Text) (now : ℕ) (m : Manager)
    → IsExclusive m.store
    → IsExclusive (cancel_if_live id now m).0.store
unfolding cancel_if_live
cancel_if_live-IsExclusive id now m h =
    let stopped = cancel_job-IsExclusive id now m h in ground (arith, h, stopped)

-- The operations of a manager; a job ends in a state that is not active.
pub data Operation : Type 0 where
  enqueue : Text → Text → Text → Option Text → ℕ → Operation
  claim : Text → ℕ → Operation
  cancel : Text → ℕ → Operation
  cancel_live : Text → ℕ → Operation
  cancel_all : Text → ℕ → Operation
  finish : Text → (state : JobState) → is_active state ≡ false → ℕ → Operation
  prune : Operation

-- A refused submission changes nothing.
unfoldable pub apply : Operation → Manager → Manager
apply (enqueue id kind workspace batch now) m = elim (enqueue_job id kind workspace batch now m) [
  | none ↦ m
  | some m' ↦ m'
]
apply (claim id now) m = (run_stored_job id now m).0
apply (cancel id now) m = cancel_job id now m
apply (cancel_live id now) m = (cancel_if_live id now m).0
apply (cancel_all batch now) m = (cancel_batch batch now m).0
apply (finish id state idle now) m = finish_job id state now m
apply prune m = (prune_stored_jobs m).0

enqueued-IsExclusive :
    (id kind workspace : Text) (batch : Option Text) (now : ℕ) (m : Manager)
    → IsExclusive m.store
    → IsExclusive (apply (enqueue id kind workspace batch now) m).store
unfolding apply enqueue_job
enqueued-IsExclusive id kind workspace batch now m h =
    let j = pending_job id kind workspace batch now in
    let kept : is_taken workspace m.store ≡ false
        → IsExclusive (prune_stored_jobs (queue_job j m)).0.store =
      λ free.
        subst IsExclusive (sym (prune-store (queue_job j m)))
          (save-IsExclusive j m.store (no_clash workspace j m.store refl free) h) in
    ground (arith, kept, h)

-- Every operation of a manager that is exclusive leaves it exclusive: no two active jobs ever have
-- the same workspace, whichever jobs are submitted, claimed, cancelled, finished or pruned.
pub apply-IsExclusive :
    (op : Operation) (m : Manager) → IsExclusive m.store → IsExclusive (apply op m).store
unfolding apply finish_job cancel_batch
apply-IsExclusive (enqueue id kind workspace batch now) m h =
    enqueued-IsExclusive id kind workspace batch now m h
apply-IsExclusive (claim id now) m h = claimed-IsExclusive id now m h
apply-IsExclusive (cancel id now) m h = cancel_job-IsExclusive id now m h
apply-IsExclusive (cancel_live id now) m h = cancel_if_live-IsExclusive id now m h
apply-IsExclusive (cancel_all batch now) m h = cancel_each-IsExclusive batch now _ m h
apply-IsExclusive (finish id state idle now) m h = update-IsExclusive id state now m.store idle h
apply-IsExclusive prune m h = subst IsExclusive (sym (prune-store m)) h
