-- ===== src/Goal/Target.antt =====
-- supervisor/core/target_state.py: the durable state of a target. The state file of a workspace is
-- an `Option TargetState`: `none` where there is no readable file. The clock is a parameter `now`.
pub mod Bounds
pub mod Streak
mod Tests
use super_opencode.Base.{
  ℕ, ◌+◌, Bool, true, false, not, ◌&&◌, ◌||◌, Option, none, some, List, [], ◌∷◌, ◌++◌, map, keep,
  leb, ltb, ◌==◌, if◌then◌else◌, is_empty, is_digit, take, take_last, reverse, max, length, Text,
  codes, contains, lower, mem_text, text_eq, split_lines, split_words, join, strip,
}
use super_opencode.Goal.Direction.{direction_fingerprint}

pub record TargetState : Type 0 where
  pub target : Text
  pub success_criteria : List Text
  pub failure_conditions : List Text
  pub status : Text
  pub iteration : ℕ
  pub evidence : List Text
  pub tried_directions : List Text
  pub rejected_directions : List Text
  pub lessons : List Text
  pub stagnation_count : ℕ
  pub staged_improvements : ℕ
  pub last_reason : Text
  pub updated_at : Text

abbrev pub max_directions : ℕ
max_directions = 12

abbrev pub max_evidence : ℕ
max_evidence = 12

abbrev pub max_lessons : ℕ
max_lessons = 8

abbrev pub stagnation_limit : ℕ
stagnation_limit = 2

-- the values of `status`
abbrev pub running : Text
running = codes "running"

abbrev pub closed : Text
closed = codes "closed"

abbrev pub replan_required : Text
replan_required = codes "replan_required"

abbrev pub retry_with_new_direction : Text
retry_with_new_direction = codes "retry_with_new_direction"

-- `xs or ys`
abbrev pub or_default : List Text → List Text → List Text
or_default [] ys = ys
or_default (x ∷ xs) ys = x ∷ xs

drop_numbering : Text → Text
drop_numbering [] = []
drop_numbering (c ∷ s) =
    if is_digit c || c == b' ' || c == b'-' || c == b'.' || c == b')'
    then drop_numbering s
    else c ∷ s

-- `line.strip(" -0123456789.)")`
strip_numbering : Text → Text
unfolding drop_numbering
strip_numbering line = reverse (drop_numbering (reverse (drop_numbering line)))

unfoldable pub criteria_from_target : Text → List Text
unfolding strip_numbering
criteria_from_target target =
    take 5 (keep (λ line. not (is_empty line)) (map strip_numbering (split_lines target)))

unfoldable pub failure_conditions_from_target : Text → List Text
failure_conditions_from_target target =
    let lowered = lower target in
    let conditions =
      (if contains (codes "test") lowered || contains (codes "pytest") lowered
        then codes "Test failure blocks acceptance." ∷ []
        else [])
      ++ (if contains (codes "regression") lowered
          then codes "Regression requires rollback or replanning." ∷ []
          else []) in
    or_default conditions (codes "Evaluator rejection requires a new direction." ∷ [])

-- The fresh state of `initialise_target_state`; the two lists are empty where not given.
unfoldable pub fresh_state : Text → Text → List Text → List Text → TargetState
fresh_state now target success failure = record {
  target = strip target;
  success_criteria = or_default success (criteria_from_target target);
  failure_conditions = or_default failure (failure_conditions_from_target target);
  status = running;
  iteration = 0;
  evidence = [];
  tried_directions = [];
  rejected_directions = [];
  lessons = [];
  stagnation_count = 0;
  staged_improvements = 0;
  last_reason = [];
  updated_at = now;
}

-- A closed state file is left alone. The result is both the returned state and the file.
unfoldable pub initialise_target_state :
    Text → Option TargetState → Text → List Text → List Text → TargetState
initialise_target_state now file target success failure =
    let fresh = fresh_state now target success failure in
    elim file [ none ↦ fresh | some s ↦ if text_eq s.status closed then s else fresh ]

-- `if item not in items: items.append(item); items = items[-cap:]`
abbrev pub append_new : ℕ → Text → List Text → List Text
append_new cap item items =
    if mem_text item items then items else take_last cap (items ++ item ∷ [])

-- a blank fingerprint is not recorded
abbrev pub note_direction : Text → List Text → List Text
note_direction direction ds =
    if is_empty direction then ds else append_new max_directions direction ds

abbrev pub note_evidence : Text → List Text → List Text
note_evidence e es = if is_empty e then es else take_last max_evidence (es ++ strip e ∷ [])

-- the branch on `accepted`: `none` is a turn that could not be measured
unfoldable pub apply_acceptance : TargetState → Option Bool → Text → TargetState
apply_acceptance s none direction = s
apply_acceptance s (some true) direction = record s { stagnation_count = 0; status = running }
apply_acceptance s (some false) direction = record s {
  status =
      if leb stagnation_limit (s.stagnation_count + 1)
      then replan_required
      else retry_with_new_direction;
  stagnation_count = s.stagnation_count + 1;
  rejected_directions = note_direction direction s.rejected_directions;
}

-- `record_target_iteration` on a state that was loaded
unfoldable pub record_iteration :
    Text → TargetState → ℕ → Text → Text → Option Bool → Text → TargetState
record_iteration now s iteration direction evidence accepted reason =
    let normalized = direction_fingerprint direction in
    let noted = record s {
      iteration = max s.iteration iteration;
      tried_directions = note_direction normalized s.tried_directions;
      evidence = note_evidence evidence s.evidence;
    } in
    record (apply_acceptance noted accepted normalized) {
      last_reason = strip reason;
      updated_at = now;
    }

abbrev pub loaded_or_fresh : Text → Option TargetState → TargetState
loaded_or_fresh now none = fresh_state now (codes "Unnamed TARGET") [] []
loaded_or_fresh now (some s) = s

unfoldable pub record_target_iteration :
    Text → Option TargetState → ℕ → Text → Text → Option Bool → Text → TargetState
record_target_iteration now file iteration direction evidence accepted reason =
    record_iteration now (loaded_or_fresh now file) iteration direction evidence accepted reason

-- The status is `closed` by default, or `blocked`.
unfoldable pub mark_target_closed : Text → Option TargetState → Text → Text → Option TargetState
mark_target_closed now none reason status = none
mark_target_closed now (some s) reason status = some (record s {
  status = status;
  last_reason = take 400 (join (codes " ") (split_words reason));
  updated_at = now;
})

unfoldable pub record_lesson : Text → Option TargetState → Text → Option TargetState
record_lesson now none lesson = none
record_lesson now (some s) lesson =
    if is_empty lesson
    then some s
    else some (record s { lessons = append_new max_lessons lesson s.lessons; updated_at = now })

-- The part of `stage_temporary_improvement` that changes the state file.
unfoldable pub count_staged : Text → Option TargetState → Option TargetState
count_staged now none = none
count_staged now (some s) =
    some (record s { staged_improvements = s.staged_improvements + 1; updated_at = now })
