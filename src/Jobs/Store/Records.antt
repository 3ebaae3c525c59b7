-- ===== src/Jobs/Store/Records.antt =====
-- services/jobs/state_store.py: the records as a map from ids.
use super_opencode.Base.{
  ◌≡◌, ◌∙◌, refl, sym, ap, false, Option, none, some, List, [], ◌∷◌, arith, ℕ, if◌then◌else◌, Text,
  text_eq, text_eq_refl, text_eq_sym, text_eq_iff,
}
use super_opencode.Jobs.States.{JobState}
use super_opencode.Jobs.Store.{
  Job, get_job_state, save_job_state, update_state, with_state, delete_job,
}

pub get-saved : (j : Job) (js : List Job) → get_job_state j.job_id (save_job_state j js) ≡ some j
unfolding get_job_state save_job_state
get-saved j [] = ground (arith, text_eq_refl j.job_id)
get-saved j (k ∷ ks) = ground (arith, get-saved j ks, text_eq_refl j.job_id)

pub get-other :
    (j : Job) (other : Text) (js : List Job)
    → text_eq other j.job_id ≡ false
    → get_job_state other (save_job_state j js) ≡ get_job_state other js
unfolding get_job_state save_job_state
get-other j other [] apart = ground (arith, text_eq_sym other j.job_id)
get-other j other (k ∷ ks) apart =
    ground
      (arith, get-other j other ks apart, text_eq_sym other j.job_id, text_eq_iff k.job_id j.job_id)

pub with_state-job_id :
    (id : Text) (state : JobState) (now : ℕ) (o : Option Job)
    → (with_state id state now o).job_id ≡ id
unfolding with_state
with_state-job_id id state now none = refl
with_state-job_id id state now (some j) = refl

pub with_state-set :
    (id : Text) (state : JobState) (now : ℕ) (o : Option Job)
    → (with_state id state now o).state ≡ state
unfolding with_state
with_state-set id state now none = refl
with_state-set id state now (some j) = refl

pub get-updated :
    (id : Text) (state : JobState) (now : ℕ) (js : List Job)
    → get_job_state id (update_state id state now js)
      ≡ some (with_state id state now (get_job_state id js))
unfolding update_state
get-updated id state now js =
    let j : Job = with_state id state now (get_job_state id js) in
    ap (λ i. get_job_state i (save_job_state j js))
      (sym (with_state-job_id id state now (get_job_state id js)))
    ∙ get-saved j js

pub get-updated_other :
    (id other : Text) (state : JobState) (now : ℕ) (js : List Job)
    → text_eq other id ≡ false
    → get_job_state other (update_state id state now js) ≡ get_job_state other js
unfolding update_state
get-updated_other id other state now js apart =
    let j : Job = with_state id state now (get_job_state id js) in
    get-other j other js
      (ap (text_eq other) (with_state-job_id id state now (get_job_state id js)) ∙ apart)

-- The three laws in one form, for any id.
pub get-save :
    (j : Job) (id : Text) (js : List Job)
    → get_job_state id (save_job_state j js)
      ≡ (if text_eq j.job_id id then some j else get_job_state id js)
unfolding get_job_state save_job_state
get-save j id [] = ground arith
get-save j id (k ∷ ks) = ground (
  arith,
  get-save j id ks,
  text_eq_iff k.job_id j.job_id,
  text_eq_iff j.job_id id,
  text_eq_iff k.job_id id,
)

pub get-update :
    (id other : Text) (state : JobState) (now : ℕ) (js : List Job)
    → get_job_state other (update_state id state now js) ≡ (
        if text_eq id other
        then some (with_state id state now (get_job_state id js))
        else get_job_state other js)
unfolding update_state
get-update id other state now js = ground (
  arith,
  get-save (with_state id state now (get_job_state id js)) other js,
  with_state-job_id id state now (get_job_state id js),
)

pub get-delete :
    (id other : Text) (js : List Job)
    → get_job_state other (delete_job id js)
      ≡ (if text_eq id other then none else get_job_state other js)
unfolding get_job_state delete_job
get-delete id other [] = ground arith
get-delete id other (k ∷ ks) = ground (
  arith,
  get-delete id other ks,
  text_eq_iff k.job_id id,
  text_eq_iff k.job_id other,
  text_eq_iff id other,
)
