-- ===== src/Goal/Guard/Turn.antt =====
-- supervisor/core/goal_guard.py: evaluate_turn and the contexts for prompts.
use super_opencode.Base.{
  ℕ, ◌+◌, Bool, true, false, ◌&&◌, Option, none, some, List, [], ◌∷◌, ◌++◌, map, leb, ◌==◌,
  if◌then◌else◌, is_empty, take_last, Text, codes, text_eq, join, show_nat,
}
use super_opencode.Utils.Excerpt.{head_tail_excerpt}
use super_opencode.Analyzers.Stagnation.{StagnationSignal, record_turn}
use super_opencode.Decision.Choice.{ChoiceDecision}
use super_opencode.Decision.Service.{decide_stagnation}
use super_opencode.Goal.Target.{
  TargetState, record_target_iteration, record_lesson, replan_required, or_default,
}
use super_opencode.Goal.Evidence.{criteria_from_protocol}
use super_opencode.Goal.Guard.{Config, World, Guard, Verdict, audit, or_text, summary}

pub record TurnDecision : Type 0 where
  pub guidance : Text
  pub stagnation : Option StagnationSignal
  pub restart : Bool
  pub jev_note : Text

unfoldable pub stagnation_guidance : ℕ → Text → Text
stagnation_guidance stage reason =
    if stage == 1
    then codes "NOTE: you have "
      ++ (reason
          ++ codes
              ". If this turn was deliberate analysis or a test run, say so explicitly in your output; otherwise make an actual file change next.")
    else if stage == 2
    then codes "STRATEGY CHANGE REQUIRED: "
      ++ (reason
          ++ codes
              ". List three alternative approaches, then continue with the one you have not tried yet.")
    else codes "No further progress is possible with this approach; " ++ (reason ++ codes ".")

abbrev python_bool : Bool → Text
python_bool b = if b then codes "True" else codes "False"

unfoldable pub turn_evidence : Bool → Option Bool → Text
turn_evidence changed attained =
    codes "worktree_changed="
    ++ (python_bool changed ++ elim attained [
      | none ↦ codes "; attainment=unmeasured"
      | some b ↦ codes "; attainment_progressed=" ++ python_bool b
    ])

-- The state file after one judged turn: the iteration, then the lesson.
unfoldable pub file_after_turn :
    World → ℕ → Option TargetState → Verdict → Bool → Text → Option Bool → Option TargetState
file_after_turn w turn file v changed output attained =
    let recorded =
      record_target_iteration w.now file turn (or_text v.feedback (head_tail_excerpt output 200 50))
        (turn_evidence changed attained) attained
        (head_tail_excerpt (or_text v.next_action v.feedback) 240 50) in
    if is_empty v.next_action
    then some recorded
    else record_lesson w.now (some recorded) (head_tail_excerpt v.next_action 240 50)

abbrev state_text : Option TargetState → Text
state_text none = codes "unknown"
state_text (some s) =
    codes "status=" ++ (s.status ++ (codes "; stagnation=" ++ show_nat s.stagnation_count))

-- the arbiter's answer on a signal, `none` without an arbiter
unfoldable pub stagnation_review :
    World → Option TargetState → StagnationSignal → Text → Option ChoiceDecision
stagnation_review w file s output = elim w.jev [
  | none ↦ none
  | some transport ↦
      decide_stagnation transport s.stage s.stagnant_turns s.reason output (state_text file)
]

-- What an answer makes of a signal: the guidance, the signal, and whether to restart.
unfoldable pub apply_review :
    StagnationSignal → Option ChoiceDecision → Text × (Option StagnationSignal × Bool)
apply_review s none = ([], (some s, false))
apply_review s (some d) =
    if leb 50 d.probability
    then if text_eq d.action (codes "continue")
      then ([], (none, false))
      else if text_eq d.action (codes "nudge")
      then (stagnation_guidance 1 s.reason, (some s, false))
      else if text_eq d.action (codes "strategy_change")
      then (stagnation_guidance 2 s.reason, (some s, false))
      else if text_eq d.action (codes "restart")
      then (stagnation_guidance 3 s.reason, (some s, true))
      else ([], (some s, false))
    else ([], (some s, false))

abbrev audit_review : Option ChoiceDecision → Text → Guard → Guard
audit_review none reason g = g
audit_review (some d) reason g = audit (codes "jev_stagnation") d.action reason [] [] g

abbrev review_note : Option ChoiceDecision → Text
review_note none = []
review_note (some d) = codes "Jev stagnation decision: " ++ summary d

-- What `evaluate_turn` does with a signal and the arbiter's answer: guidance and audit.
unfoldable pub guide_by : Guard → StagnationSignal → Option ChoiceDecision → Guard × TurnDecision
guide_by g s answer =
    let (guidance, kept) = apply_review s answer in
    let reviewed : Guard = audit_review answer s.reason g in
    elim kept.0 [
      | none ↦ (
        reviewed,
        record {
          guidance = guidance;
          stagnation = none;
          restart = kept.1;
          jev_note = review_note answer;
        },
      )
      | some signal ↦ (
        audit (codes "stagnation") (codes "stage-" ++ show_nat signal.stage) signal.reason [] []
            reviewed,
        record {
          guidance = or_text guidance (stagnation_guidance signal.stage signal.reason);
          stagnation = some signal;
          restart = kept.1;
          jev_note = review_note answer;
        },
      )
    ]

unfoldable pub guide : World → Guard → Option StagnationSignal → Text → Guard × TurnDecision
guide w g none output =
    (g, record { guidance = []; stagnation = none; restart = false; jev_note = [] })
guide w g (some s) output = guide_by g s (stagnation_review w g.state_file s output)

abbrev diversity : Text
diversity =
    codes
      "DIRECTION DIVERSITY REQUIRED: the current approach repeated without progress. Re-diagnose the problem and pick a different implementation direction before editing."

-- the last test of `evaluate_turn`
unfoldable pub ask_diversity : Option TargetState → TurnDecision → TurnDecision
ask_diversity none d = d
ask_diversity (some s) d =
    if text_eq s.status replan_required && is_empty d.guidance
    then record d { guidance = diversity }
    else d

unfoldable pub evaluate_turn :
    World → Guard → Verdict → Text → Bool → Text → Option Bool → Guard × TurnDecision
evaluate_turn w g v worktree_sig worktree_changed output attained =
    let turn = g.turn + 1 in
    let (detector, signal) = record_turn g.stagnation worktree_sig output in
    let recorded : Guard = record g {
      turn = turn;
      stagnation = detector;
      state_file = file_after_turn w turn g.state_file v worktree_changed output attained;
    } in
    let (g', d) = guide w recorded signal output in (g', ask_diversity g'.state_file d)

number_lines : ℕ → List Text → List Text
number_lines i [] = []
number_lines i (c ∷ cs) = (show_nat i ++ (codes ". " ++ c)) ∷ number_lines (i + 1) cs

unfoldable pub judge_context : Config → Guard → Text
unfolding number_lines
judge_context cfg g = elim g.state_file [
  | none ↦ []
  | some s ↦
      join (codes "\n") (
        codes "--- Goal Checklist ---"
        ∷ (number_lines 1
              (or_default s.success_criteria (criteria_from_protocol cfg.target_section))
            ++ ((if is_empty s.lessons
                  then []
                  else codes "Guidance already given (do not repeat):"
                    ∷ map (λ l. codes "- " ++ l) (take_last 3 s.lessons))
                ++ (if is_empty s.rejected_directions
                    then []
                    else (codes "Directions already tried and rejected: "
                        ++ join (codes " | ") (take_last 2 s.rejected_directions))
                      ∷ []))))
      ++ codes "\n"
]
