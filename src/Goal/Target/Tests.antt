-- ===== src/Goal/Target/Tests.antt =====
-- The durable target state on concrete turns.
use super_opencode.Base.{
  ◌≡◌, ◌≢◌, refl, false, none, some, List, [], ◌∷◌, Text, codes, split_words, mem_text, text_eq,
  sym, ap, ◌∙◌,
}
use super_opencode.Goal.Direction.{direction_fingerprint}
use super_opencode.Goal.Target.{TargetState, running, replan_required}
use super_opencode.Goal.Target.Streak.{Turn, run, rejections, status_for, status_of_run}

abbrev now : Text
now = codes "2026-11-26"

abbrev started : TargetState
started = record {
  target = codes "reach 10 ms";
  success_criteria = [];
  failure_conditions = [];
  status = running;
  iteration = 0;
  evidence = [];
  tried_directions = [];
  rejected_directions = [];
  lessons = [];
  stagnation_count = 0;
  staged_improvements = 0;
  last_reason = [];
  updated_at = now;
}

abbrev rejected_turn : Turn
rejected_turn = record {
  iteration = 1;
  direction = codes "Cache the lookup table";
  evidence = codes "none";
  accepted = some false;
  reason = codes "slower";
}

abbrev turns : List Turn
turns = rejected_turn ∷ record rejected_turn { accepted = none } ∷ rejected_turn ∷ []

status_of_run_example :
    ((run now started turns).stagnation_count ≡ rejections 0 turns)
    × ((run now started turns).status ≡ status_for (rejections 0 turns))
status_of_run_example = status_of_run now started turns refl

two_rejections : status_for (rejections 0 turns) ≡ replan_required
unfolding rejections
two_rejections = refl

fingerprint : direction_fingerprint (codes "Cache the lookup table") ≡ codes "cache lookup table"
unfolding direction_fingerprint mem_text text_eq
fingerprint = refl

same :
    direction_fingerprint (codes "lookup table: cache")
    ≡ direction_fingerprint (codes "Cache the lookup table")
unfolding direction_fingerprint mem_text text_eq
same = refl

three_words : split_words (codes "cache lookup table") ≢ []
unfolding split_words
three_words e = cc

filled : split_words (direction_fingerprint (codes "lookup table: cache")) ≢ []
filled e = three_words (sym (ap split_words (same ∙ fingerprint)) ∙ e)
