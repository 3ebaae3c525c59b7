-- ===== src/Jobs/Store/Retention.antt =====
-- services/jobs/job_manager.py: what pruning drops, and when a submission is refused.
use super_opencode.Base.{
  ℕ, zero, suc, ◌-◌, ◌≤◌, ◌≡◌, ◌∙◌, refl, ap, sym, Bool, true, false, ◌&&◌, ◌||◌, Option, none,
  some, List, [], ◌∷◌, any, arith, keep, map, length, length-take, length-keep, count_if-le-length,
  take, Text, text_eq, ◌↔◌, mem_text, count_if,
}
use super_opencode.Jobs.States.{is_terminal}
use super_opencode.Jobs.Store.Records.{get-saved, get-other}
use super_opencode.Jobs.Store.{
  Job, Manager, insert_job, sort_jobs, surplus, dropped_ids, prune_stored_jobs, is_taken,
  enqueue_job, get_job_state, save_job_state, pending_job, queue_job,
}

any-insert :
    (p : Job → Bool) (j : Job) (js : List Job) → any p (insert_job j js) ≡ (p j || any p js)
unfolding insert_job
any-insert p j [] = refl
any-insert p j (k ∷ ks) = ground (arith, any-insert p j ks)

any-sort : (p : Job → Bool) (js : List Job) → any p (sort_jobs js) ≡ any p js
unfolding sort_jobs
any-sort p [] = refl
any-sort p (j ∷ js) = any-insert p j (sort_jobs js) ∙ ground (arith, any-sort p js)

any-take : (p : Job → Bool) (n : ℕ) (js : List Job) → any p (take n js) ≡ true → any p js ≡ true
any-take p zero js h = cc
any-take p (suc n) [] h = h
any-take p (suc n) (j ∷ js) h = let rest = any-take p n js in ground (arith, rest, h)

-- a terminal job with the given id
abbrev pub is_terminal_job : Text → Job → Bool
is_terminal_job id j = is_terminal j.state && text_eq id j.job_id

mem-ids :
    (id : Text) (js : List Job)
    → mem_text id (map (λ (j : Job). j.job_id) js) ≡ any (λ j. text_eq id j.job_id) js
unfolding mem_text
mem-ids id [] = refl
mem-ids id (j ∷ js) = ground (arith, mem-ids id js)

any-terminal :
    (id : Text) (js : List Job)
    → any (λ j. text_eq id j.job_id) (keep (λ (j : Job). is_terminal j.state) js)
      ≡ any (is_terminal_job id) js
any-terminal id [] = refl
any-terminal id (j ∷ js) = ground (arith, any-terminal id js)

mem-keep :
    (id : Text) (p : Text → Bool) (ids : List Text)
    → mem_text id (keep p ids) ≡ true
    → mem_text id ids ≡ true
unfolding mem_text
mem-keep id p [] h = h
mem-keep id p (i ∷ is) h = let rest = mem-keep id p is in ground (arith, rest, h)

length-insert : (j : Job) (js : List Job) → length (insert_job j js) ≡ suc (length js)
unfolding insert_job
length-insert j [] = refl
length-insert j (k ∷ ks) = ground (arith, length-insert j ks)

length-sort : (js : List Job) → length (sort_jobs js) ≡ length js
unfolding sort_jobs
length-sort [] = refl
length-sort (j ∷ js) = length-insert j (sort_jobs js) ∙ ap suc (length-sort js)

length-map : (js : List Job) → length (map (λ (j : Job). j.job_id) js) ≡ length js
length-map [] = refl
length-map (j ∷ js) = ap suc (length-map js)

length-keep_le : (p : Text → Bool) (ids : List Text) → length (keep p ids) ≤ length ids
length-keep_le p ids = omega (arith, length-keep p ids, count_if-le-length p ids)

dropped_ids-terminal :
    (m : Manager) (id : Text)
    → mem_text id (dropped_ids m) ≡ true
    → any (is_terminal_job id) m.store ≡ true
unfolding dropped_ids surplus
dropped_ids-terminal m id h =
    let terminal = keep (λ (j : Job). is_terminal j.state) m.store in
    let sorted = sort_jobs terminal in
    let n = length sorted - m.max_stored in
    let same : Job → Bool = λ j. text_eq id j.job_id in
    let listed =
      mem-keep id (λ i. mem_text i m.logs) (map (λ (j : Job). j.job_id) (take n sorted)) h in
    sym (any-terminal id m.store)
    ∙ sym (any-sort same terminal)
    ∙ any-take same n sorted (sym (mem-ids id (take n sorted)) ∙ listed)

length-dropped_ids :
    (m : Manager)
    → length (dropped_ids m) ≤ count_if (λ (j : Job). is_terminal j.state) m.store - m.max_stored
unfolding dropped_ids surplus
length-dropped_ids m =
    let terminal = keep (λ (j : Job). is_terminal j.state) m.store in
    let sorted = sort_jobs terminal in
    let n = length sorted - m.max_stored in
    omega (
      arith,
      length-keep_le (λ i. mem_text i m.logs) (map (λ (j : Job). j.job_id) (take n sorted)),
      length-map (take n sorted),
      length-take n sorted,
      length-sort terminal,
      length-keep (λ (j : Job). is_terminal j.state) m.store,
    )

-- Pruning leaves every record as it is. It drops the logs of terminal jobs only, as many as there are
-- terminal jobs beyond the cap at most, and with a cap of 0 it drops nothing.
pub prunes_terminal_jobs :
    (m : Manager)
    → ((prune_stored_jobs m).0.store ≡ m.store)
      × ((id : Text)
          → mem_text id (prune_stored_jobs m).1 ≡ true
          → any (is_terminal_job id) m.store ≡ true)
      × (length (prune_stored_jobs m).1
          ≤ count_if (λ (j : Job). is_terminal j.state) m.store - m.max_stored)
      × (m.max_stored ≡ 0 → (prune_stored_jobs m).1 ≡ [])
unfolding prune_stored_jobs mem_text
prunes_terminal_jobs m = (
  ground arith,
  λ id h. ground (arith, h, dropped_ids-terminal m id),
  ground (arith, length-dropped_ids m),
  ground arith,
)

enqueued-store :
    (id kind workspace : Text) (batch : Option Text) (now : ℕ) (m m' : Manager)
    → enqueue_job id kind workspace batch now m ≡ some m'
    → m'.store ≡ save_job_state (pending_job id kind workspace batch now) m.store
unfolding enqueue_job
enqueued-store id kind workspace batch now m m' h =
    let j = pending_job id kind workspace batch now in
    let queued : Manager = queue_job j m in
    let kept : (prune_stored_jobs queued).0.store ≡ queued.store =
      (prunes_terminal_jobs queued).0 in
    let same : (prune_stored_jobs queued).0 ≡ m' = ground (arith, h) in
    sym (ap (λ (n : Manager). n.store) same) ∙ kept

refused_iff_taken :
    (id kind workspace : Text) (batch : Option Text) (now : ℕ) (m : Manager)
    → (enqueue_job id kind workspace batch now m ≡ none) ↔ (is_taken workspace m.store ≡ true)
unfolding enqueue_job
refused_iff_taken id kind workspace batch now m = (λ h. ground (arith, h), λ h. ground (arith, h))

-- A submission is refused exactly where an active job has the workspace; an accepted one is stored
-- under its id as a pending job, and the records of all other ids are as before.
pub enqueue_job_lem :
    (id kind workspace : Text) (batch : Option Text) (now : ℕ) (m : Manager)
    → ((enqueue_job id kind workspace batch now m ≡ none) ↔ (is_taken workspace m.store ≡ true))
      × ((m' : Manager)
          → enqueue_job id kind workspace batch now m ≡ some m'
          → (get_job_state id m'.store ≡ some (pending_job id kind workspace batch now))
            × ((other : Text)
                → text_eq other id ≡ false
                → get_job_state other m'.store ≡ get_job_state other m.store))
enqueue_job_lem id kind workspace batch now m =
    let j : Job = pending_job id kind workspace batch now in
    (
      refused_iff_taken id kind workspace batch now m,
      λ m' h.
          let stored = enqueued-store id kind workspace batch now m m' h in
          (
            ap (get_job_state id) stored ∙ get-saved j m.store,
            λ other apart. ap (get_job_state other) stored ∙ get-other j other m.store apart,
          ),
    )
