-- ===== src/Analyzers/CrossTurn/Tests.antt =====
-- CrossTurnLoopDetector on concrete turns.
use super_opencode.Base.{◌≡◌, refl, true, List, [], ◌∷◌, arith, Text, codes}
use super_opencode.Analyzers.Turn.{normalize_turn}
use super_opencode.Analyzers.CrossTurn.{Detector}
use super_opencode.Analyzers.CrossTurn.Recurrence.{alarm, recurring_output_alarms}

-- the defaults of `__init__`, after some other turn
abbrev running : Detector
running = record {
  max_repeats = 3;
  window = 6;
  min_len = 8;
  outputs = codes "something else" ∷ [];
  feedbacks = [];
}

abbrev stuck : List (Text × Text)
stuck =
    (codes "3 tests failing", codes "fix a")
    ∷ (codes "5 tests  failing", codes "fix b")
    ∷ (codes "7 tests failing", codes "fix c")
    ∷ []

recurring_output_alarms_example : alarm running stuck ≡ true
recurring_output_alarms_example =
    recurring_output_alarms running (codes "# tests failing") stuck (omega arith) (omega arith)
      (omega arith) (unfold normalize_turn in (refl, (refl, (refl, tt)))) (omega arith)
