-- ===== src/Jobs/Daemon/Apart.antt =====
-- services/jobs/job_manager.py: no two jobs that are active have one workspace, but for those that are
-- marked as running while their cancel file is there: a late write of a worker may have done that.
use super_opencode.Base.{
  ℕ, ◌≡◌, ◌∙◌, refl, sym, ap, ap₂, ◌&&◌, ◌⊎◌, if◌then◌else◌, Bool, true, false, Option, none, some,
  List, [], ◌∷◌, arith, inl, inr, Bool-cases, Text, text_eq, text_eq_iff, text_eq_sym,
}
use super_opencode.Jobs.States.{JobState, is_active}
use super_opencode.Jobs.Store.{Job, Manager, get_job_state, update_state, with_state, is_taken}
use super_opencode.Jobs.Store.Exclusive.{clashes}
use super_opencode.Jobs.Store.Records.{get-updated, with_state-set}
use super_opencode.Jobs.Daemon.{is_running}
use super_opencode.Jobs.Daemon.Frames.{Frame, stopping}

unfoldable pub clash : Option Job → Option Job → Bool
clash none o = false
clash (some j) none = false
clash (some j) (some k) = clashes j k

-- a record, unless it is marked as running with its cancel file there
unfoldable pub view : Option Job → Bool → Option Job
view o stop = if is_running o && stop then none else o

abbrev pub seen : Text → Manager → Option Job
seen id m = view (get_job_state id m.store) (stopping id m)

unfoldable pub IsApart : Manager → Type 0
IsApart m = (i k : Text) → text_eq i k ≡ false → clash (seen i m) (seen k m) ≡ false

same-seen :
    (id other : Text) (m n : Manager)
    → Frame id m n
    → text_eq id other ≡ false
    → seen other n ≡ seen other m
same-seen id other m n f apart = ap₂ view (f.same_job other apart) (f.same_stop other apart)

clash_sym : (o p : Option Job) → clash o p ≡ clash p o
unfolding clash clashes
clash_sym none none = refl
clash_sym none (some k) = refl
clash_sym (some j) none = refl
clash_sym (some j) (some k) = ground (arith, text_eq_sym j.workspace k.workspace)

-- What one operation may write: a record that clashes with no other.
pub put-IsApart :
    (id : Text) (m n : Manager)
    → Frame id m n
    → ((other : Text) → text_eq id other ≡ false → clash (seen id n) (seen other m) ≡ false)
    → IsApart m
    → IsApart n
unfolding IsApart
put-IsApart id m n f free h i k apart = elim (Bool-cases (text_eq id i)) [
  | inl same ↦
      let e = (text_eq_iff id i).0 same in
      let apart' : text_eq id k ≡ false = ap (λ z. text_eq z k) e ∙ apart in
      ap (λ z. clash (seen z n) (seen k n)) (sym e)
      ∙ ap (clash (seen id n)) (same-seen id k m n f apart')
      ∙ free k apart'
  | inr other ↦ elim (Bool-cases (text_eq id k)) [
    | inl same ↦
        let e = (text_eq_iff id k).0 same in
        ap (λ z. clash (seen i n) (seen z n)) (sym e)
        ∙ clash_sym (seen i n) (seen id n)
        ∙ ap (clash (seen id n)) (same-seen id i m n f other)
        ∙ free i other
    | inr other' ↦
        ap (λ o. clash o (seen k n)) (same-seen id i m n f other)
        ∙ ap (clash (seen i m)) (same-seen id k m n f other')
        ∙ h i k apart
  ]
]

idle-free : (j : Job) (o : Option Job) → is_active j.state ≡ false → clash (some j) o ≡ false
unfolding clash clashes
idle-free j none idle = refl
idle-free j (some k) idle = ground arith

view-free : (o p : Option Job) (stop : Bool) → clash o p ≡ false → clash (view o stop) p ≡ false
unfolding view clash
view-free o p stop free = ground (arith, free)

-- a change to a state that is not active
pub update-free :
    (id : Text) (state : JobState) (now : ℕ) (js : List Job) (stop : Bool) (o : Option Job)
    → is_active state ≡ false
    → clash (view (get_job_state id (update_state id state now js)) stop) o ≡ false
update-free id state now js stop o idle =
    let new = with_state id state now (get_job_state id js) in
    view-free (get_job_state id (update_state id state now js)) o stop (
      ap (λ r. clash r o) (get-updated id state now js)
      ∙ idle-free new o (ap is_active (with_state-set id state now (get_job_state id js)) ∙ idle))

-- a cancel file that is new or gone, where the record is not running
pub stop-free :
    (o p : Option Job) (before after : Bool)
    → (after ≡ false → before ≡ false ⊎ is_running o ≡ false)
    → clash (view o before) p ≡ false
    → clash (view o after) p ≡ false
unfolding view clash
stop-free o p before true h free = ground (arith, free)
stop-free o p before false h free = elim (h refl) [
  | inl e ↦ ground (arith, e, free)
  | inr e ↦ ground (arith, e, free)
]

-- a new record over an active one of the same workspace
pub same-free :
    (new old : Job) (o : Option Job)
    → is_active old.state ≡ true
    → new.workspace ≡ old.workspace
    → clash (some old) o ≡ false
    → clash (some new) o ≡ false
unfolding clash clashes
same-free new old none active same free = refl
same-free new old (some k) active same free = rw same (ground arith)

-- a record in a workspace that is not taken
untaken-record :
    (j : Job) (js : List Job) (other : Text)
    → is_taken j.workspace js ≡ false
    → clash (some j) (get_job_state other js) ≡ false
unfolding clash clashes is_taken get_job_state
untaken-record j [] other free = refl
untaken-record j (k ∷ ks) other free =
    let rest = untaken-record j ks other (ground arith) in
    ground (arith, rest, text_eq_sym k.workspace j.workspace)

clash-view :
    (j : Job) (o : Option Job) (stop : Bool)
    → clash (some j) o ≡ false
    → clash (some j) (view o stop) ≡ false
unfolding view clash
clash-view j o stop free = ground (arith, free)

pub untaken-free :
    (j : Job) (m : Manager) (other : Text) (stop : Bool)
    → is_taken j.workspace m.store ≡ false
    → clash (view (some j) stop) (seen other m) ≡ false
untaken-free j m other stop free = view-free (some j) (seen other m) stop (
    clash-view j (get_job_state other m.store) (stopping other m)
      (untaken-record j m.store other free))
