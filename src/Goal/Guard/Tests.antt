-- ===== src/Goal/Guard/Tests.antt =====
-- The guard on concrete claims and turns.
use super_opencode.Base.{
  ◌≡◌, refl, Bool, true, false, not, ◌&&◌, ◌||◌, Option, none, some, replicate, is_some, List, [],
  ◌∷◌, arith, any, leb, is_empty, Text, codes, text_eq, mem_text, contains,
}
use super_opencode.Analyzers.Stagnation.{Detector}
use super_opencode.Goal.Target.{TargetState, max_directions, max_lessons}
use super_opencode.Goal.Target.Bounds.{FileIsBounded}
use super_opencode.Goal.Evidence.{
  looks_like_test_file, file_name, stem_of, before, behind, evidence_files,
}
use super_opencode.Goal.Guard.{Config, World, Guard, Verdict, DoneDecision, evaluate_done}
use super_opencode.Goal.Guard.Turn.{TurnDecision, evaluate_turn}
use super_opencode.Goal.Guard.Exit.{
  is_supported, accepted_iff_supported, Proposal, acceptances, cap_accepts,
}
use super_opencode.Goal.Guard.Audit.{IsAudited, decision-IsAudited}
use super_opencode.Goal.Guard.Guidance.{signal_of, is_replan, turn_without_arbiter, guard-IsBounded}

abbrev config : Config
config = record {
  max_blocked_stops = 2;
  goal_require_changes = true;
  goal_verify_tests = true;
  target_section = codes "1. add the parser";
}

abbrev world : World
world = record {
  now = codes "2026-11-26";
  rubric_results = [];
  rubric_problems = [];
  gate_facts = none;
  test_gate = (true, codes "12 passed");
  jev = none;
}

abbrev detector : Detector
detector = record {
  nudge_after = 2;
  strategy_after = 3;
  escalate_after = 4;
  last_worktree_sig = [];
  last_output_sig = [];
  stagnant_turns = 0;
  highest_stage_fired = 0;
}

abbrev guard : Guard
guard = record {
  stagnation = detector;
  blocked_stops = 0;
  turn = 4;
  last_done_decision = none;
  state_file = none;
  audit_file = [];
}

abbrev met : Verdict
met = record {
  all_targets_met = true;
  feedback = codes "parser added";
  criteria_results =
      record { name = codes "add the parser"; met = true; evidence = codes "src/parser.py" } ∷ [];
  next_action = [];
}

abbrev unmet : Verdict
unmet = record met {
  criteria_results = record { name = codes "add the parser"; met = false; evidence = [] } ∷ [];
}

abbrev changed : List Text
changed = codes "src/parser.py" ∷ codes "docs/summary.md" ∷ []

accepted_iff_supported_example :
    let decision : DoneDecision = (evaluate_done config world guard met changed []).1 in
    (decision.accepted ≡ (leb 2 0 || is_supported config world met changed []))
    × (decision.unverified ≡ leb 2 0)
accepted_iff_supported_example = accepted_iff_supported config world guard met changed []

decision-IsAudited_example : IsAudited 5 changed (evaluate_done config world guard met changed [])
decision-IsAudited_example = decision-IsAudited config world guard met changed []

abbrev insisted : Proposal
insisted = record { world = world; verdict = unmet; changed_files = changed; output = [] }

cap_accepts_example :
    any (λ b. b) (acceptances config guard (insisted ∷ insisted ∷ insisted ∷ [])) ≡ true
cap_accepts_example =
    cap_accepts config guard (insisted ∷ insisted ∷ insisted ∷ []) (omega arith) (omega arith)

turn_without_arbiter_example :
    let r : Guard × TurnDecision =
      evaluate_turn world guard unmet (codes "abc") true (codes "looking") (some false) in
    (r.1.stagnation ≡ signal_of guard (codes "abc") (codes "looking"))
    × (r.1.restart ≡ false)
    × (is_empty r.1.guidance ≡ (
        not (is_some (signal_of guard (codes "abc") (codes "looking")))
        && not (is_replan r.0.state_file)))
turn_without_arbiter_example =
    turn_without_arbiter world guard unmet (codes "abc") true (codes "looking") (some false) refl

-- a state file with as many directions and lessons as it may have
abbrev full : TargetState
full = record {
  target = codes "add the parser";
  success_criteria = [];
  failure_conditions = [];
  status = codes "active";
  iteration = 40;
  evidence = [];
  tried_directions = replicate max_directions (codes "tried");
  rejected_directions = replicate max_directions (codes "rejected");
  lessons = replicate max_lessons (codes "lesson");
  stagnation_count = 2;
  staged_improvements = 0;
  last_reason = [];
  updated_at = [];
}

full-IsBounded : FileIsBounded (some full)
full-IsBounded = record {
  tried = omega arith;
  rejected = omega arith;
  evidence = omega arith;
  lessons = omega arith;
}

abbrev with_file : Guard
with_file = record guard { state_file = some full }

guard-IsBounded_example :
    ((files : List Text) (output : Text)
      → FileIsBounded (evaluate_done config world with_file met files output).0.state_file)
    × ((sig output : Text) (changed : Bool) (attained : Option Bool)
        → FileIsBounded
            (evaluate_turn world with_file met sig changed output attained).0.state_file)
guard-IsBounded_example = guard-IsBounded config world with_file met full-IsBounded

test_file : looks_like_test_file (codes "src/test_parser.py") ≡ true
unfolding looks_like_test_file file_name text_eq before
test_file = refl

plain_file : looks_like_test_file (codes "src/parser.py") ≡ false
unfolding looks_like_test_file file_name stem_of text_eq before contains behind
plain_file = refl

less_generated : evidence_files changed ≡ codes "src/parser.py" ∷ []
unfolding evidence_files file_name mem_text text_eq before
less_generated = refl
