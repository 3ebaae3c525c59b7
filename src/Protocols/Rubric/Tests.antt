-- ===== src/Protocols/Rubric/Tests.antt =====
-- A rubric with a command and a metric.
use super_opencode.Base.{
  ◌≡◌, ◌||◌, refl, not, true, none, some, List, [], ◌∷◌, all, is_empty, codes, text_eq, strip,
  drop_spaces, ◌&&◌,
}
use super_opencode.Decision.Service.{Claim}
use super_opencode.Protocols.Gates.{Gate, Check, Scalar, str, num, is_open, text_of, as_int}
use super_opencode.Protocols.Check.{
  Workspace, scalar, object, field, no_fields, document, exited, GateEvaluation, pass, fail,
  text_at, get_check,
}
use super_opencode.Protocols.Metric.{
  evaluate_metric, given, metric_by, find_op, partition, metric_from, metric_value, walk,
  split_from, child, get_field, number_of, compare_metric,
}
use super_opencode.Protocols.Rubric.Recorded.{IsRecorded, pass-IsRecorded}
use super_opencode.Protocols.Rubric.Violations.{is_unknown, verdict_violations}
use super_opencode.Protocols.Rubric.Answered.{is_evidenced, is_answered, sound_iff_answered}

abbrev workspace : Workspace
workspace = record {
  read = λ file. document (object (field (codes "n") (scalar (num 7)) no_fields));
  run = λ cmd. exited 0 (codes "ok") [];
  exists = λ path. true;
  timeout = 120;
}

abbrev metric : Check
metric =
    (codes "metric", str (codes "n"))
    ∷ (codes "op", str (codes ">="))
    ∷ (codes "value", num 5)
    ∷ (codes "source", str (codes "r.json:n"))
    ∷ []

abbrev gate : Gate
gate = record {
  name = codes "speed";
  definition = [];
  status = is_open;
  evidence = [];
  ref = none;
  check = some metric;
}

measured : (evaluate_metric workspace gate metric).outcome ≡ pass
unfolding evaluate_metric given get_check text_eq strip text_of as_int metric_by find_op partition
    metric_from metric_value walk split_from child get_field number_of compare_metric drop_spaces
measured = refl

pass-IsRecorded_example :
    (value : Scalar) × (given (get_check (codes "value") metric) ≡ some value)
    × IsRecorded workspace (text_at (codes "op") metric) (text_at (codes "source") metric) value
pass-IsRecorded_example = pass-IsRecorded workspace gate metric measured

abbrev claims : List Claim
claims = record { name = codes "speed"; met = true; evidence = codes "see out/r.json" } ∷ []

abbrev evaluations : List GateEvaluation
evaluations =
    record { name = codes "speed"; outcome = fail; fact = []; source = []; kind = codes "metric" }
    ∷ []

sound_iff_answered_example :
    is_empty (verdict_violations workspace claims (gate ∷ []) evaluations) ≡ (
      is_empty (gate ∷ [])
      || (all (λ c. not (is_unknown (gate ∷ []) c)) claims
          && (all (is_evidenced workspace) claims
              && all (is_answered (gate ∷ []) claims) evaluations)))
sound_iff_answered_example = sound_iff_answered workspace claims (gate ∷ []) evaluations
