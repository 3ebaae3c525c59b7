-- ===== src/Decision/Close.antt =====
-- supervisor/core/decision_service.py: the closing decision.
use super_opencode.Base.{
  ℕ, ◌≤◌, ◌≡◌, ◌↔◌, ◌∙◌, ◌⊎◌, All, refl, sym, subst, Option, none, some, [], ◌∷◌, arith, ltb,
  if◌then◌else◌, Text, codes, text_eq, text_eq_iff,
}
use super_opencode.Decision.Choice.{Table, best_of, IsEntry, best_of-IsEntry, best_of_max}

pub data Verdict : Type 0 where
  continue escalate close grace : Verdict

-- CLOSE_ACTIONS
abbrev pub close_run : Text
close_run = codes "close_run"

abbrev pub continue_design_work : Text
continue_design_work = codes "continue_design_work"

abbrev pub escalate_to_operator : Text
escalate_to_operator = codes "escalate_to_operator"

-- `_verdict`
unfoldable pub verdict_of : ℕ → ℕ → Text → Verdict
verdict_of threshold probability action =
    if text_eq action continue_design_work
    then continue
    else if text_eq action escalate_to_operator
    then escalate
    else if ltb probability threshold
    then continue
    else if text_eq action close_run
    then close
    else grace

pub record CloseDecision : Type 0 where
  pub verdict : Verdict
  pub close_probability : ℕ
  pub terminal_probability : ℕ
  pub action : Text
  pub actions : Table

-- The three blocks of the answer; `action` is empty where its block is missing or holds no
-- probabilities. `none` is a missing or malformed number, and malformed probabilities.
pub record CloseAnswer : Type 0 where
  pub close_now : Option ℕ
  pub terminal : Option ℕ
  pub action : Option Table

chosen : Table → Text
chosen [] = continue_design_work
chosen (entry ∷ table) = (best_of entry table).0

-- `decide_close` on the answer of `ask`
unfoldable pub decide_close : ℕ → Option CloseAnswer → Option CloseDecision
unfolding chosen
decide_close threshold none = none
decide_close threshold (some a) = elim a.close_now [
  | none ↦ none
  | some p ↦ elim a.terminal [
    | none ↦ none
    | some t ↦ elim a.action [
      | none ↦ none
      | some table ↦ some (record {
        verdict = verdict_of threshold p (chosen table);
        close_probability = p;
        terminal_probability = t;
        action = chosen table;
        actions = table;
      })
    ]
  ]
]

verdict_of_lem :
    (threshold p : ℕ) (action : Text)
    → ((verdict_of threshold p action ≡ close) ↔ ((action ≡ close_run) × (threshold ≤ p)))
      × ((verdict_of threshold p action ≡ escalate) ↔ (action ≡ escalate_to_operator))
      × (verdict_of threshold p action ≡ grace → threshold ≤ p)
unfolding verdict_of
verdict_of_lem threshold p action = (
  (
    λ h. closes h,
    λ (e, le).
        subst (λ a. verdict_of threshold p a ≡ close) (sym e) (unfold text_eq in ground arith),
  ),
  (
    λ h. ground (arith, text_eq_iff action escalate_to_operator),
    λ e. subst (λ a. verdict_of threshold p a ≡ escalate) (sym e) (unfold text_eq in refl),
  ),
  λ h. ground arith,
)
  where
    closes : verdict_of threshold p action ≡ close → (action ≡ close_run) × (threshold ≤ p)
    closes h = (ground (arith, text_eq_iff action close_run), ground arith)

-- The action of a table: the one of a largest probability, or to go on where there is none.
pub data IsChosen : Table → Text → Type 0 where
  default : IsChosen [] continue_design_work
  largest :
      {table : Table} (action : Text) (probability : ℕ)
      → IsEntry (action, probability) table
      → All (λ e. e.1 ≤ probability) table
      → IsChosen table action

chosen-IsChosen : (table : Table) → IsChosen table (chosen table)
unfolding chosen
chosen-IsChosen [] = default
chosen-IsChosen (entry ∷ table) =
    largest (best_of entry table).0 (best_of entry table).1 (best_of-IsEntry entry table)
      (best_of_max entry table)

-- what a decision on three well-formed blocks says
pub record IsClosing (threshold p t : ℕ) (table : Table) (d : CloseDecision) : Type 0 where
  pub probability : d.close_probability ≡ p
  pub terminal : d.terminal_probability ≡ t
  pub listed : d.actions ≡ table
  pub action : IsChosen table d.action
  pub closes : (d.verdict ≡ close) ↔ ((d.action ≡ close_run) × (threshold ≤ p))
  pub escalates : (d.verdict ≡ escalate) ↔ (d.action ≡ escalate_to_operator)
  pub graces : d.verdict ≡ grace → threshold ≤ p

abbrev decision_of : ℕ → ℕ → ℕ → Table → CloseDecision
decision_of threshold p t table = record {
  verdict = verdict_of threshold p (chosen table);
  close_probability = p;
  terminal_probability = t;
  action = chosen table;
  actions = table;
}

decision_of-IsClosing :
    (threshold p t : ℕ) (table : Table)
    → IsClosing threshold p t table (decision_of threshold p t table)
decision_of-IsClosing threshold p t table =
    let (closes, escalates, graces) = verdict_of_lem threshold p (chosen table) in
    record {
      probability = refl;
      terminal = refl;
      listed = refl;
      action = chosen-IsChosen table;
      closes = closes;
      escalates = escalates;
      graces = graces;
    }

decided :
    (threshold p t : ℕ) (table : Table) (answer : CloseAnswer)
    → answer.close_now ≡ some p
    → answer.terminal ≡ some t
    → answer.action ≡ some table
    → decide_close threshold (some answer) ≡ some (decision_of threshold p t table)
unfolding decide_close
decided threshold p t table answer e f g = rw (e, f, g) refl

-- A closing decision is made exactly when the two probabilities and the table of actions are all well
-- formed. Its action is one of the largest probability in the table, or to go on if the table is empty.
-- It says `close` exactly when that action is to close the run and the answer's probability of closing
-- reaches the threshold, `escalate` exactly when the action is to escalate, and `grace` only when the
-- probability of closing reaches the threshold.
pub close_iff :
    (threshold : ℕ) (answer : CloseAnswer) (d : CloseDecision)
    → (decide_close threshold (some answer) ≡ none
        ↔ ((answer.close_now ≡ none) ⊎ ((answer.terminal ≡ none) ⊎ (answer.action ≡ none))))
      × ((p t : ℕ) (table : Table)
          → answer.close_now ≡ some p
          → answer.terminal ≡ some t
          → answer.action ≡ some table
          → decide_close threshold (some answer) ≡ some d
          → IsClosing threshold p t table d)
unfolding decide_close
close_iff threshold answer d = (
  (λ h. ground (arith, h), λ h. ground (arith, h)),
  λ p t table e f g h.
      let made = sym (decided threshold p t table answer e f g) ∙ h in
      subst (IsClosing threshold p t table) (ground (arith, made))
        (decision_of-IsClosing threshold p t table),
)
