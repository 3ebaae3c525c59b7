-- ===== src/Decision/Tests.antt =====
-- The decision client on concrete answers.
use super_opencode.Base.{
  ℕ, ◌≡◌, ◌↔◌, ◌⊎◌, refl, true, none, some, List, [], ◌∷◌, Text, codes, text_eq,
}
use super_opencode.Decision.Choice.{Table, best_of}
use super_opencode.Decision.Close.{
  IsClosing, CloseAnswer, CloseDecision, close, close_run, verdict_of, decide_close, close_iff,
}
use super_opencode.Decision.Service.{Transport, decide_contradictions, contradictions_from}

abbrev verdicts : Table
verdicts = (codes "accept", 20) ∷ (codes "reject", 70) ∷ (codes "need_evidence", 10) ∷ []

abbrev answer : CloseAnswer
answer = record {
  close_now = some 90;
  terminal = some 60;
  action = some ((codes "continue_design_work", 10) ∷ (codes "close_run", 80) ∷ []);
}

abbrev closing : CloseDecision
closing = record {
  verdict = close;
  close_probability = 90;
  terminal_probability = 60;
  action = close_run;
  actions = (codes "continue_design_work", 10) ∷ (codes "close_run", 80) ∷ [];
}

closes : decide_close 80 (some answer) ≡ some closing
unfolding decide_close verdict_of best_of text_eq
closes = refl

close_iff_example :
    (decide_close 80 (some answer) ≡ none
      ↔ ((answer.close_now ≡ none) ⊎ ((answer.terminal ≡ none) ⊎ (answer.action ≡ none))))
    × ((p t : ℕ) (table : Table)
        → answer.close_now ≡ some p
        → answer.terminal ≡ some t
        → answer.action ≡ some table
        → decide_close 80 (some answer) ≡ some closing
        → IsClosing 80 p t table closing)
close_iff_example = close_iff 80 answer closing

closing-IsClosing : IsClosing 80 90 60 closing.actions closing
closing-IsClosing = (close_iff 80 answer closing).1 90 60 closing.actions refl refl refl closes

abbrev down : Transport
down = λ r. none

-- every claim is found to be contradicted
abbrev up : Transport
up = λ r. some (record { close_action = some []; choices = λ name. none; nouls = λ name. some 99 })

abbrev claims : List (Text × Text)
claims = (codes "tests pass", codes "2 failed") ∷ (codes "file exists", codes "listed") ∷ []

contradicted :
    decide_contradictions up 80 claims (codes "turn 3") ≡ some (some true ∷ some true ∷ [])
unfolding decide_contradictions contradictions_from
contradicted = refl
