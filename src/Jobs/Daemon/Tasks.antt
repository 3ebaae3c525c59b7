-- ===== src/Jobs/Daemon/Tasks.antt =====
-- services/jobs/worker_service.py: finding and retiring the worker of a job.
use super_opencode.Base.{
  ◌≡◌, ◌∙◌, refl, ap, false, Bool-cases, inl, inr, none, some, List, [], ◌∷◌, arith, Text, text_eq,
  text_eq_iff,
}
use super_opencode.Jobs.Worker.{Task}
use super_opencode.Jobs.Daemon.{find_task, retire}

pub find_task-job_id :
    (id : Text) (ts : List Task) (t : Task) → find_task id ts ≡ some t → t.job_id ≡ id
unfolding find_task
find_task-job_id id [] t h = cc
find_task-job_id id (u ∷ us) t h =
    ground (arith, h, find_task-job_id id us t, text_eq_iff u.job_id id)

pub find-retire_other :
    (id other : Text) (ts : List Task)
    → text_eq id other ≡ false
    → find_task other (retire id ts) ≡ find_task other ts
unfolding find_task retire
find-retire_other id other [] apart = refl
find-retire_other id other (t ∷ ts) apart = ground (
  arith,
  find-retire_other id other ts apart,
  text_eq_iff t.job_id id,
  text_eq_iff t.job_id other,
  text_eq_iff id other,
  apart,
)

retire-absent : (id : Text) (ts : List Task) → find_task id ts ≡ none → retire id ts ≡ ts
unfolding find_task retire
retire-absent id [] h = refl
retire-absent id (t ∷ ts) h = let rest = retire-absent id ts in ground (arith, rest, h)

retire_comm : (id k : Text) (ts : List Task) → retire id (retire k ts) ≡ retire k (retire id ts)
unfolding retire
retire_comm id k [] = refl
retire_comm id k (t ∷ ts) =
    ground (arith, retire_comm id k ts, text_eq_iff t.job_id id, text_eq_iff t.job_id k)

-- One worker at most has a job.
unfoldable pub AreAlone : List Task → Type 0
AreAlone ts = (id : Text) → find_task id (retire id ts) ≡ none

pub add-AreAlone :
    (t : Task) (ts : List Task) → find_task t.job_id ts ≡ none → AreAlone ts → AreAlone (t ∷ ts)
unfolding AreAlone find_task retire
add-AreAlone t ts free h id = ground (arith, h id, free, text_eq_iff t.job_id id)

pub retire-AreAlone : (k : Text) (ts : List Task) → AreAlone ts → AreAlone (retire k ts)
unfolding AreAlone
retire-AreAlone k ts h id = elim (Bool-cases (text_eq k id)) [
  | inl same ↦
      let e = (text_eq_iff k id).0 same in
      let gone = ap (λ z. find_task id (retire z ts)) e ∙ h id in
      ap (find_task id) (retire-absent id (retire k ts) gone) ∙ gone
  | inr other ↦
      ap (find_task id) (retire_comm id k ts) ∙ find-retire_other k id (retire id ts) other ∙ h id
]
