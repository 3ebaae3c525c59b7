-- ===== src/Goal/Guard.antt =====
-- supervisor/core/goal_guard.py: GoalGuard, the check of a completion claim. The state is the object
-- with its state file and its audit file. What the outside answers during one call (the gate rubric,
-- the facts file, the test runner, the arbiter, the clock) is a `World`.
pub mod Turn
pub mod Exit
pub mod Rubric
pub mod Audit
pub mod Guidance
mod Tests
use super_opencode.Base.{
  ℕ, ◌+◌, ◌/◌, ◌%◌, Bool, true, false, not, ◌&&◌, ◌||◌, Option, none, some, List, [], ◌∷◌, ◌++◌,
  map, keep, any, leb, ltb, ◌==◌, if◌then◌else◌, is_empty, take, drop, take_last, reverse, length,
  Text, codes, contains, lower, mem_text, text_eq, split_lines, join, strip, drop_spaces, is_digit,
  show_nat,
}
use super_opencode.Utils.Excerpt.{head_tail_excerpt}
use super_opencode.Analyzers.Stagnation.{Detector, reset}
use super_opencode.Protocols.Gates.{Entry, parse_gates}
use super_opencode.Protocols.Feasibility.{is_passing}
use super_opencode.Decision.Choice.{ChoiceDecision}
use super_opencode.Decision.Service.{Transport, Claim, decide_done}
use super_opencode.Goal.Evidence.{looks_like_test_file, evidence_files, criteria_from_protocol}
use super_opencode.Goal.Target.{TargetState, initialise_target_state, record_target_iteration}

-- The fields of `SupervisorVerdict` that the guard reads.
pub record Verdict : Type 0 where
  pub all_targets_met : Bool
  pub feedback : Text
  pub criteria_results : List Claim
  pub next_action : Text

unfoldable pub unmet_criteria : Verdict → List Text
unmet_criteria v = map (λ (c : Claim). c.name) (keep (λ (c : Claim). not c.met) v.criteria_results)

pub record DoneDecision : Type 0 where
  pub accepted : Bool
  pub reason : Text
  pub unverified : Bool
  pub unmet_criteria : List Text
  pub jev_note : Text

-- A line of the audit file, less its clock, its proposal and its hashes.
pub record AuditRecord : Type 0 where
  pub turn : ℕ
  pub event : Text
  pub decision : Text
  pub reason : Text
  pub unmet_criteria : List Text
  pub changed_files : List Text

pub record Config : Type 0 where
  pub max_blocked_stops : ℕ
  pub goal_require_changes : Bool
  pub goal_verify_tests : Bool
  pub target_section : Text

pub record World : Type 0 where
  pub now : Text
  pub rubric_results : List (Text × Text)  -- outcomes of the machine gates by name
  pub rubric_problems : List Text
  pub gate_facts : Option (List (Option Entry))
  pub test_gate : Bool × Text
  pub jev : Option Transport

pub record Guard : Type 0 where
  pub stagnation : Detector
  pub blocked_stops : ℕ
  pub turn : ℕ
  pub last_done_decision : Option DoneDecision
  pub state_file : Option TargetState
  pub audit_file : List AuditRecord

unfoldable pub attainment_recorded : World → Bool
attainment_recorded w = any is_passing (parse_gates w.gate_facts)

unfoldable pub audit : Text → Text → Text → List Text → List Text → Guard → Guard
audit event decision reason unmet files g = record g {
  audit_file =
      g.audit_file
      ++ record {
        turn = g.turn;
        event = event;
        decision = decision;
        reason = reason;
        unmet_criteria = unmet;
        changed_files = files;
      }
        ∷ [];
}

-- `start`: the criteria of the target become the checklist, unless the target is closed.
unfoldable pub start : Config → Text → Guard → Guard
start cfg now g =
    let criteria = criteria_from_protocol cfg.target_section in
    let opened : Guard = record g {
      state_file =
          some (initialise_target_state now g.state_file (strip cfg.target_section) criteria []);
    } in
    audit (codes "goal_start") (codes "initialized")
      (show_nat (length criteria) ++ codes " acceptance criteria derived from TARGET") [] [] opened

unfoldable pub block : Guard → Verdict → List Text → List Text → Text → Text → Guard × DoneDecision
block g v files unmet reason note =
    let decision : DoneDecision = record {
      accepted = false;
      reason = reason;
      unverified = false;
      unmet_criteria = unmet;
      jev_note = note;
    } in
    let counted : Guard = record g {
      blocked_stops = g.blocked_stops + 1;
      last_done_decision = some decision;
    } in
    (
      audit (codes "done_blocked") (codes "blocked") reason unmet (evidence_files files) counted,
      decision,
    )

-- `text or default`
abbrev pub or_text : Text → Text → Text
or_text [] default = default
or_text (c ∷ s) default = c ∷ s

-- the records of an acceptance: the decision, the state file, and the audit file
unfoldable pub accept :
    World → Guard → Verdict → List Text → Text → Text → DoneDecision → Guard × DoneDecision
accept w g v files event default decision =
    let evidence = join (codes "; ") (take 8 (evidence_files files)) in
    let recorded : Guard = record g {
      last_done_decision = some decision;
      state_file = some (
          record_target_iteration w.now g.state_file g.turn (or_text v.feedback default) evidence
            (some true) decision.reason);
    } in
    (
      audit event (codes "accepted") decision.reason decision.unmet_criteria (evidence_files files)
          recorded,
      decision,
    )

-- the branch at the cap
unfoldable pub accept_unverified : World → Guard → Verdict → List Text → Guard × DoneDecision
accept_unverified w g v files =
    accept w (record g { blocked_stops = g.blocked_stops + 1 }) v files
      (codes "done_accepted_unverified") (codes "done (unverified)")
      (record {
        accepted = true;
        reason =
            codes "accepted after "
            ++ (show_nat g.blocked_stops
                ++ codes
                    " blocked DONE proposals — judge insistence outweighs remaining doubt (PENDING REVIEW / 待处理: evidence incomplete)");
        unverified = true;
        unmet_criteria = unmet_criteria v;
        jev_note = [];
      })

unfoldable pub accept_verified : World → Guard → Verdict → List Text → Text → Guard × DoneDecision
accept_verified w g v files note =
    let red_flags = keep looks_like_test_file (evidence_files files) in
    let flagged =
      codes " — NOTE: verification files were modified ("
      ++ (join (codes ", ") (take 3 red_flags)
          ++ codes "); confirm they were extended, not weakened") in
    accept w (record g { stagnation = reset g.stagnation }) v files (codes "done_accepted")
      (codes "done")
      (record {
        accepted = true;
        reason =
            codes "all criteria met with workspace evidence"
            ++ (if is_empty red_flags then [] else flagged);
        unverified = false;
        unmet_criteria = unmet_criteria v;
        jev_note = note;
      })

-- `ChoiceDecision.summary`, with three places of a probability in percent
unfoldable pub summary : ChoiceDecision → Text
summary d =
    codes "action="
    ++ (d.action
        ++ (codes " (p="
            ++ (show_nat (d.probability / 100)
                ++ (codes "."
                    ++ (show_nat (d.probability / 10 % 10)
                        ++ (show_nat (d.probability % 10) ++ codes "0)"))))))

-- the arbiter's answer, `none` without an arbiter
unfoldable pub done_review : Config → World → Verdict → List Text → Text → Option ChoiceDecision
done_review cfg w v files output = elim w.jev [
  | none ↦ none
  | some transport ↦
      decide_done transport cfg.target_section v.criteria_results (evidence_files files) output
]

unfoldable pub rejects : ChoiceDecision → Bool
rejects d =
    leb 50 d.probability
    && (text_eq d.action (codes "reject") || text_eq d.action (codes "need_evidence"))

abbrev pub review_reason : ChoiceDecision → Text
review_reason d =
    (if text_eq d.action (codes "reject")
      then codes "jev rejected the DONE proposal: "
      else codes "jev requires more evidence before accepting: ")
    ++ summary d

-- the last step of `evaluate_done`
unfoldable pub after_review :
    World → Guard → Verdict → List Text → Option ChoiceDecision → Guard × DoneDecision
after_review w g v files none = accept_verified w g v files []
after_review w g v files (some d) =
    let note = codes "Jev DONE review: " ++ summary d in
    if rejects d
    then block g v files (unmet_criteria v) (review_reason d) note
    else accept_verified w g v files note

-- the record of `_rubric_exit_checks`
unfoldable pub audit_rubric : World → Guard → Guard
audit_rubric w g =
    if is_empty w.rubric_results
    then g
    else audit (codes "rubric_evaluated") (codes "evaluated") [] [] [] g

unfoldable pub evaluate_done :
    Config → World → Guard → Verdict → List Text → Text → Guard × DoneDecision
evaluate_done cfg w g v files output =
    let started : Guard = record g { turn = g.turn + 1 } in
    let measured = audit_rubric w started in
    if leb cfg.max_blocked_stops g.blocked_stops
    then accept_unverified w started v files
    else if not (is_empty (unmet_criteria v))
    then block started v files (unmet_criteria v)
        (codes "verdict claims DONE while criteria remain UNMET") []
    else if not (is_empty w.rubric_problems)
    then block measured v files (unmet_criteria v)
        (codes "gate rubric exit check: " ++ join (codes "; ") w.rubric_problems) []
    else if cfg.goal_require_changes
        && is_empty (evidence_files files)
        && not (attainment_recorded w)
    then block measured v files []
        (codes
          "no observable workspace change since run start — completion without evidence is not accepted")
        []
    else if cfg.goal_verify_tests && not w.test_gate.0
    then block measured v files [] (codes "test gate failed: " ++ w.test_gate.1) []
    else after_review w measured v files (done_review cfg w v files output)

unfoldable pub blocked_feedback : DoneDecision → Verdict → Text
blocked_feedback d v = join (codes "\n") (
    codes "--- COMPLETION BLOCKED BY SUPERVISOR ---"
    ∷ (codes "Your completion claim was not accepted. Reason: " ++ (d.reason ++ codes "."))
    ∷ ((if is_empty d.unmet_criteria
          then []
          else (codes "These targets are still unresolved: "
              ++ (join (codes "; ") (take 5 d.unmet_criteria) ++ codes "."))
            ∷ [])
        ++ (codes
              "Do not simply restate completion — produce the missing evidence (file changes, passing command output) first, then claim completion again."
            ∷ ((if is_empty v.next_action
                  then []
                  else (codes "Next action: " ++ v.next_action) ∷ [])
                ++ codes "--- END BLOCK NOTICE ---" ∷ []))))
