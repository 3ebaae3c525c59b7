-- ===== src/Goal/Guard/Guidance.antt =====
-- supervisor/core/goal_guard.py: the guidance of a judged turn and the state file under both checks.
use super_opencode.Base.{
  ℕ, ◌+◌, ◌≡◌, ◌∙◌, refl, sym, ap, Bool, true, false, not, ◌&&◌, Option, none, some, is_some, List,
  [], ◌++◌, arith, inl, inr, Bool-cases, is_empty, Text, codes, text_eq, subst, join, take,
}
use super_opencode.Utils.Excerpt.{head_tail_excerpt}
use super_opencode.Analyzers.Stagnation.{StagnationSignal, record_turn}
use super_opencode.Decision.Choice.{ChoiceDecision}
use super_opencode.Goal.Target.{TargetState, replan_required}
use super_opencode.Goal.Target.Bounds.{FileIsBounded, iterate, learn, apply, apply-IsBounded}
use super_opencode.Goal.Evidence.{evidence_files}
use super_opencode.Goal.Guard.{
  Config, World, Guard, Verdict, DoneDecision, audit, or_text, block, accept, accept_unverified,
  accept_verified, after_review, audit_rubric, evaluate_done, done_review, summary,
}
use super_opencode.Goal.Guard.Turn.{
  TurnDecision, stagnation_guidance, turn_evidence, file_after_turn, stagnation_review,
  apply_review, guide, guide_by, ask_diversity, evaluate_turn,
}

-- The detector's signal of a turn.
abbrev pub signal_of : Guard → Text → Text → Option StagnationSignal
signal_of g worktree_sig output = (record_turn g.stagnation worktree_sig output).1

abbrev pub is_replan : Option TargetState → Bool
is_replan none = false
is_replan (some s) = text_eq s.status replan_required

stagnation_guidance-filled :
    (stage : ℕ) (reason : Text) → is_empty (stagnation_guidance stage reason) ≡ false
unfolding stagnation_guidance
stagnation_guidance-filled stage reason = ground arith

ask_diversity-guidance :
    (file : Option TargetState) (d : TurnDecision)
    → (is_empty (ask_diversity file d).guidance ≡ (is_empty d.guidance && not (is_replan file)))
      × ((ask_diversity file d).stagnation ≡ d.stagnation)
      × ((ask_diversity file d).restart ≡ d.restart)
unfolding ask_diversity
ask_diversity-guidance none d = ground arith
ask_diversity-guidance (some s) d = ground arith

stagnation_review-alone :
    (w : World) (file : Option TargetState) (s : StagnationSignal) (output : Text)
    → w.jev ≡ none
    → stagnation_review w file s output ≡ none
unfolding stagnation_review
stagnation_review-alone w file s output h = ground (arith, h)

guide_by-alone :
    (g : Guard) (s : StagnationSignal)
    → ((guide_by g s none).1.stagnation ≡ some s)
      × ((guide_by g s none).1.restart ≡ false)
      × (is_empty (guide_by g s none).1.guidance ≡ false)
unfolding guide_by apply_review
guide_by-alone g s = (refl, refl, stagnation_guidance-filled s.stage s.reason)

guide-alone :
    (w : World) (g : Guard) (signal : Option StagnationSignal) (output : Text)
    → w.jev ≡ none
    → ((guide w g signal output).1.stagnation ≡ signal)
      × ((guide w g signal output).1.restart ≡ false)
      × (is_empty (guide w g signal output).1.guidance ≡ not (is_some signal))
unfolding guide
guide-alone w g none output h = (refl, refl, refl)
guide-alone w g (some s) output h =
    rw (stagnation_review-alone w g.state_file s output h) (guide_by-alone g s)

-- Without an arbiter a judged turn passes on the detector's signal and never orders a restart, and it
-- gives guidance exactly where there is a signal or the state file asks for a new direction.
pub turn_without_arbiter :
    (w : World) (g : Guard) (v : Verdict) (sig : Text) (changed : Bool) (output : Text)
    (attained : Option Bool)
    → w.jev ≡ none
    → let r : Guard × TurnDecision = evaluate_turn w g v sig changed output attained in
      (r.1.stagnation ≡ signal_of g sig output)
      × (r.1.restart ≡ false)
      × (is_empty r.1.guidance
          ≡ (not (is_some (signal_of g sig output)) && not (is_replan r.0.state_file)))
unfolding evaluate_turn
turn_without_arbiter w g v sig changed output attained h =
    let recorded : Guard = record g {
      turn = g.turn + 1;
      stagnation = (record_turn g.stagnation sig output).0;
      state_file = file_after_turn w (g.turn + 1) g.state_file v changed output attained;
    } in
    let r : Guard × TurnDecision = guide w recorded (signal_of g sig output) output in
    let (signal, order, silent) = guide-alone w recorded (signal_of g sig output) output h in
    let (silence, same, same_order) = ask_diversity-guidance r.0.state_file r.1 in
    (
      same ∙ signal,
      same_order ∙ order,
      silence ∙ ap (λ b. b && not (is_replan r.0.state_file)) silent,
    )

file_after_turn-IsBounded :
    (w : World) (turn : ℕ) (file : Option TargetState) (v : Verdict) (changed : Bool)
    (output : Text) (attained : Option Bool)
    → FileIsBounded file
    → FileIsBounded (file_after_turn w turn file v changed output attained)
unfolding file_after_turn apply
file_after_turn-IsBounded w turn file v changed output attained h =
    let turn_recorded =
      iterate turn (or_text v.feedback (head_tail_excerpt output 200 50))
        (turn_evidence changed attained) attained
        (head_tail_excerpt (or_text v.next_action v.feedback) 240 50) in
    let recorded = apply-IsBounded w.now file turn_recorded h in
    elim (Bool-cases (is_empty v.next_action)) [
      | inl silent ↦ rw silent recorded
      | inr spoken ↦ rw spoken (
          apply-IsBounded w.now (apply w.now file turn_recorded)
            (learn (head_tail_excerpt v.next_action 240 50)) recorded)
    ]

guide-state_file :
    (w : World) (g : Guard) (signal : Option StagnationSignal) (output : Text)
    → (guide w g signal output).0.state_file ≡ g.state_file
unfolding guide guide_by audit apply_review
guide-state_file w g signal output = ground arith

accept-IsBounded :
    (w : World) (g : Guard) (v : Verdict) (files : List Text) (event default : Text)
    (d : DoneDecision)
    → FileIsBounded g.state_file
    → FileIsBounded (accept w g v files event default d).0.state_file
unfolding accept audit apply
accept-IsBounded w g v files event default d h =
    apply-IsBounded w.now g.state_file
      (iterate g.turn (or_text v.feedback default)
        (join (codes "; ") (take 8 (evidence_files files))) (some true) d.reason)
      h

accept_verified-IsBounded :
    (w : World) (g : Guard) (v : Verdict) (files : List Text) (note : Text)
    → FileIsBounded g.state_file
    → FileIsBounded (accept_verified w g v files note).0.state_file
unfolding accept_verified
accept_verified-IsBounded w g v files note h =
    accept-IsBounded w _ v files (codes "done_accepted") (codes "done") _ h

accept_unverified-IsBounded :
    (w : World) (g : Guard) (v : Verdict) (files : List Text)
    → FileIsBounded g.state_file
    → FileIsBounded (accept_unverified w g v files).0.state_file
unfolding accept_unverified
accept_unverified-IsBounded w g v files h =
    accept-IsBounded w _ v files (codes "done_accepted_unverified") (codes "done (unverified)") _ h

after_review-IsBounded :
    (w : World) (g : Guard) (v : Verdict) (files : List Text) (answer : Option ChoiceDecision)
    → FileIsBounded g.state_file
    → FileIsBounded (after_review w g v files answer).0.state_file
unfolding after_review block audit
after_review-IsBounded w g v files none h = accept_verified-IsBounded w g v files [] h
after_review-IsBounded w g v files (some d) h =
    let accepted =
      accept_verified-IsBounded w g v files (codes "Jev DONE review: " ++ summary d) h in
    ground (arith, accepted, h)

audit_rubric-state_file : (w : World) (g : Guard) → (audit_rubric w g).state_file ≡ g.state_file
unfolding audit_rubric audit
audit_rubric-state_file w g = ground arith

evaluate_done-IsBounded :
    (cfg : Config) (w : World) (g : Guard) (v : Verdict) (files : List Text) (output : Text)
    → FileIsBounded g.state_file
    → FileIsBounded (evaluate_done cfg w g v files output).0.state_file
unfolding evaluate_done block audit
evaluate_done-IsBounded cfg w g v files output h =
    let started : Guard = record g { turn = g.turn + 1 } in
    let measured : FileIsBounded (audit_rubric w started).state_file =
      subst FileIsBounded (sym (audit_rubric-state_file w started)) h in
    let capped = accept_unverified-IsBounded w started v files h in
    let reviewed =
      after_review-IsBounded w (audit_rubric w started) v files (done_review cfg w v files output)
        measured in
    ground (arith, capped, reviewed, measured, h)

-- A completion claim and a judged turn both keep a bounded state file bounded, a missing file
-- included.
pub guard-IsBounded :
    (cfg : Config) (w : World) (g : Guard) (v : Verdict)
    → FileIsBounded g.state_file
    → ((files : List Text) (output : Text)
        → FileIsBounded (evaluate_done cfg w g v files output).0.state_file)
      × ((sig output : Text) (changed : Bool) (attained : Option Bool)
          → FileIsBounded (evaluate_turn w g v sig changed output attained).0.state_file)
unfolding evaluate_turn
guard-IsBounded cfg w g v h = (
  λ files output. evaluate_done-IsBounded cfg w g v files output h,
  λ sig output changed attained.
      subst FileIsBounded (sym (guide-state_file w _ (signal_of g sig output) output))
        (file_after_turn-IsBounded w (g.turn + 1) g.state_file v changed output attained h),
)
