-- ===== src/Goal/Guard/Rubric/Tests.antt =====
-- A completion claim with a rubric of one command.
use super_opencode.Base.{
  ◌≡◌, ◌||◌, refl, not, true, false, none, some, [], ◌∷◌, all, is_empty, codes, text_eq, mem_text,
  strip, drop_spaces, contains,
}
use super_opencode.Analyzers.Stagnation.{Detector}
use super_opencode.Protocols.Gates.{
  Entry, str, Check, parse_gates, gates_from, gate_of, read_status, text_of, as_int,
}
use super_opencode.Protocols.Check.{
  Workspace, missing, exited, get_check, evaluate_command, command_result, expected_code, exit_fact,
  is_pass, measure_text,
}
use super_opencode.Protocols.Rubric.{
  check_of, evaluate_check, put_evaluation, evaluate_from, evaluate_rubric,
}
use super_opencode.Protocols.Rubric.Measured.{passes}
use super_opencode.Protocols.Rubric.Violations.{
  is_claimed, is_claimed_met, is_unknown, unknown, cited_paths, missing_files, not_adjudicated,
  verdict_violations, paths_from, first_missing, is_path_char, has_extension, is_opening,
  is_closing_mark, path_exists, count_parts,
}
use super_opencode.Protocols.Rubric.Answered.{is_evidenced}
use super_opencode.Goal.Guard.{
  Config, World, Guard, Verdict, evaluate_done, unmet_criteria, after_review, done_review,
  accept_verified, accept, audit_rubric,
}
use super_opencode.Goal.Guard.Rubric.{
  exit_problems, checks_from, rubric_exit_checks, with_rubric, measured, verified_done_passes,
}

abbrev workspace : Workspace
workspace = record {
  read = λ file. missing;
  run = λ cmd. exited 0 [] [];
  exists = λ path. true;
  timeout = 120;
}

abbrev command : Check
command = (codes "kind", str (codes "command")) ∷ (codes "cmd", str (codes "pytest")) ∷ []

abbrev entry : Entry
entry = record {
  name = some (str (codes "tests"));
  definition = none;
  status = none;
  evidence = none;
  ref = none;
  check = some command;
}

abbrev config : Config
config = record {
  max_blocked_stops = 2;
  goal_require_changes = false;
  goal_verify_tests = false;
  target_section = [];
}

abbrev world : World
world = record {
  now = codes "2026-11-26";
  rubric_results = [];
  rubric_problems = [];
  gate_facts = some (some entry ∷ []);
  test_gate = (true, []);
  jev = none;
}

abbrev answered : World
answered = record world { rubric_results = (codes "tests", codes "PASS") ∷ [] }

abbrev detector : Detector
detector = record {
  nudge_after = 2;
  strategy_after = 3;
  escalate_after = 4;
  last_worktree_sig = [];
  last_output_sig = [];
  stagnant_turns = 0;
  highest_stage_fired = 0;
}

abbrev guard : Guard
guard = record {
  stagnation = detector;
  blocked_stops = 0;
  turn = 4;
  last_done_decision = none;
  state_file = none;
  audit_file = [];
}

abbrev verdict : Verdict
verdict = record {
  all_targets_met = true;
  feedback = [];
  criteria_results = record { name = codes "tests"; met = true; evidence = codes "ran" } ∷ [];
  next_action = [];
}

answer : measured workspace verdict world ≡ some answered
unfolding measured rubric_exit_checks with_rubric checks_from exit_problems evaluate_rubric
    evaluate_from check_of evaluate_check put_evaluation evaluate_command command_result
    expected_code exit_fact get_check is_pass measure_text parse_gates gates_from gate_of
    read_status text_of as_int text_eq mem_text strip drop_spaces contains is_claimed is_claimed_met
    is_unknown unknown cited_paths missing_files not_adjudicated verdict_violations paths_from
    first_missing is_path_char has_extension is_opening is_closing_mark path_exists count_parts
answer = refl

accepted : (evaluate_done config answered guard verdict [] []).1.accepted ≡ true
unfolding evaluate_done unmet_criteria after_review done_review accept_verified accept audit_rubric
accepted = refl

verified : (evaluate_done config answered guard verdict [] []).1.unverified ≡ false
unfolding evaluate_done unmet_criteria after_review done_review accept_verified accept audit_rubric
verified = refl

verified_done_passes_example :
    let gates = parse_gates world.gate_facts in
    (all (passes workspace) gates ≡ true)
    × ((is_empty gates || all (λ c. not (is_unknown gates c)) verdict.criteria_results) ≡ true)
    × ((is_empty gates || all (is_evidenced workspace) verdict.criteria_results) ≡ true)
verified_done_passes_example =
    verified_done_passes config workspace world answered guard verdict [] [] answer accepted
      verified
