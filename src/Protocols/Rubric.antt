-- ===== src/Protocols/Rubric.antt =====
-- supervisor/protocols/gate_rubric.py: the evaluation of the gates that a machine can check.
pub mod Violations
pub mod Answered
pub mod Measured
pub mod Recorded
mod Tests
use super_opencode.Base.{
  ℕ, ◌+◌, Bool, true, false, not, ◌&&◌, ◌||◌, Option, none, some, List, [], ◌∷◌, ◌++◌, any, leb,
  ltb, ◌==◌, if◌then◌else◌, is_empty, take_last, lower, strip, Text, codes, show_nat, text_eq,
}
use super_opencode.Protocols.Gates.{Scalar, flag, null, num, str, Check, Gate, text_or, as_int}
use super_opencode.Protocols.Check.{
  Json, Fields, scalar, array, object, no_fields, field, Reading, missing, unreadable, document,
  Workspace, Measure, pass, fail, error, GateEvaluation, no_record, quoted, get_check, text_at,
  or_else, evaluate_command,
}
use super_opencode.Protocols.Metric.{evaluate_metric}

-- `evaluate_gate`: a gate without a check is left to the judge. The outer `none` is an error.
unfoldable pub evaluate_check : Workspace → Gate → Check → Option GateEvaluation
evaluate_check ws g check =
    let kind = lower (text_at (codes "kind") check) in
    if text_eq kind (codes "command")
    then evaluate_command ws g check
    else if text_eq kind (codes "metric")
    then some (evaluate_metric ws g check)
    else some (record {
      name = g.name;
      outcome = error;
      fact = codes "unknown check kind " ++ quoted kind ++ codes " — fix or remove the check";
      source = codes "rubric";
      kind = or_else kind (codes "?");
    })

unfoldable pub check_of : Gate → Option Check
check_of g = elim g.check [ none ↦ none | some c ↦ if is_empty c then none else some c ]

-- `out[name] = evaluation`
unfoldable pub put_evaluation : GateEvaluation → List GateEvaluation → List GateEvaluation
put_evaluation e [] = e ∷ []
put_evaluation e (d ∷ ds) = if text_eq d.name e.name then e ∷ ds else d ∷ put_evaluation e ds

-- The loop of `evaluate_rubric`; `none` where a command cannot be split.
unfoldable pub evaluate_from :
    Workspace → List GateEvaluation → List Gate → Option (List GateEvaluation)
evaluate_from ws out [] = some out
evaluate_from ws out (g ∷ gs) = elim (check_of g) [
  | none ↦ evaluate_from ws out gs
  | some check ↦ elim (evaluate_check ws g check) [
    | none ↦ none
    | some e ↦ evaluate_from ws (put_evaluation e out) gs
  ]
]

unfoldable pub evaluate_rubric : Workspace → List Gate → Option (List GateEvaluation)
evaluate_rubric ws gates = evaluate_from ws [] gates
