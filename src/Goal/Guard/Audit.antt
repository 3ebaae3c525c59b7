-- ===== src/Goal/Guard/Audit.antt =====
-- supervisor/core/goal_guard.py: the audit file of the completion check.
use super_opencode.Base.{
  ℕ, ◌+◌, ◌≡◌, refl, subst, Bool, true, false, Option, none, some, List, [], ◌∷◌, ◌++◌, not, ◌&&◌,
  arith, is_empty, join, if◌then◌else◌, Text, codes,
}
use super_opencode.Decision.Choice.{ChoiceDecision}
use super_opencode.Goal.Evidence.{evidence_files}
use super_opencode.Goal.Guard.{
  Config, World, Guard, Verdict, DoneDecision, AuditRecord, unmet_criteria, attainment_recorded,
  done_review, audit, block, accept, rejects, accept_unverified, accept_verified, after_review,
  audit_rubric, evaluate_done,
}

unfoldable pub last_record : List AuditRecord → Option AuditRecord
last_record [] = none
last_record (r ∷ []) = some r
last_record (r ∷ (s ∷ rs)) = last_record (s ∷ rs)

last_record-append : (rs : List AuditRecord) (r : AuditRecord) → last_record (rs ++ r ∷ []) ≡ some r
unfolding last_record
last_record-append [] r = refl
last_record-append (s ∷ []) r = refl
last_record-append (s ∷ (t ∷ rs)) r = last_record-append (t ∷ rs) r

-- the record that a decision asks for
unfoldable pub record_of : ℕ → List Text → DoneDecision → AuditRecord
record_of turn files d = record {
  turn = turn;
  event =
      if d.accepted
      then (if d.unverified then codes "done_accepted_unverified" else codes "done_accepted")
      else codes "done_blocked";
  decision = if d.accepted then codes "accepted" else codes "blocked";
  reason = d.reason;
  unmet_criteria = d.unmet_criteria;
  changed_files = evidence_files files;
}

-- A result whose decision is kept and is the last line of the audit file.
pub record IsAudited (turn : ℕ) (files : List Text) (r : Guard × DoneDecision) : Type 0 where
  pub kept : r.0.last_done_decision ≡ some r.1
  pub written : last_record r.0.audit_file ≡ some (record_of turn files r.1)

block-IsAudited :
    (g : Guard) (v : Verdict) (files unmet : List Text) (reason note : Text)
    → IsAudited g.turn files (block g v files unmet reason note)
unfolding block audit record_of
block-IsAudited g v files unmet reason note = record {
  kept = refl;
  written = last_record-append g.audit_file _;
}

accept_unverified-IsAudited :
    (w : World) (g : Guard) (v : Verdict) (files : List Text)
    → IsAudited g.turn files (accept_unverified w g v files)
unfolding accept_unverified accept audit record_of
accept_unverified-IsAudited w g v files = record {
  kept = refl;
  written = last_record-append g.audit_file _;
}

accept_verified-IsAudited :
    (w : World) (g : Guard) (v : Verdict) (files : List Text) (note : Text)
    → IsAudited g.turn files (accept_verified w g v files note)
unfolding accept_verified accept audit record_of
accept_verified-IsAudited w g v files note = record {
  kept = refl;
  written = last_record-append g.audit_file _;
}

in_branches :
    {turn : ℕ} {files : List Text} {r s : Guard × DoneDecision}
    → (b : Bool) → IsAudited turn files r
    → IsAudited turn files s
    → IsAudited turn files (if b then r else s)
in_branches true p q = p
in_branches false p q = q

after_review-IsAudited :
    (w : World) (g : Guard) (v : Verdict) (files : List Text) (answer : Option ChoiceDecision)
    → IsAudited g.turn files (after_review w g v files answer)
unfolding after_review
after_review-IsAudited w g v files none = accept_verified-IsAudited w g v files []
after_review-IsAudited w g v files (some d) =
    in_branches (rejects d) (block-IsAudited g v files _ _ _)
      (accept_verified-IsAudited w g v files _)

audit_rubric-turn : (w : World) (g : Guard) → (audit_rubric w g).turn ≡ g.turn
unfolding audit_rubric audit
audit_rubric-turn w g = ground arith

-- Every completion claim gets a decision that is kept as the last one and is the last line of the
-- audit file: the line is of the claim's turn, its event and its decision are those of the decision
-- (blocked, accepted, or accepted without verification), and its reason, its unmet criteria and its
-- files are the decision's and the evidence.
pub decision-IsAudited :
    (cfg : Config) (w : World) (g : Guard) (v : Verdict) (files : List Text) (output : Text)
    → IsAudited (g.turn + 1) files (evaluate_done cfg w g v files output)
unfolding evaluate_done
decision-IsAudited cfg w g v files output =
    let started : Guard = record g { turn = g.turn + 1 } in
    let measured : Guard = audit_rubric w started in
    let blocked : (unmet : List Text) (reason : Text)
        → IsAudited (g.turn + 1) files (block measured v files unmet reason []) =
      λ unmet reason.
        subst (λ t. IsAudited t files (block measured v files unmet reason []))
          (audit_rubric-turn w started) (block-IsAudited measured v files unmet reason []) in
    let answer = done_review cfg w v files output in
    in_branches _ (accept_unverified-IsAudited w started v files) (
      in_branches _ (block-IsAudited started v files _ _ _) (
        in_branches (not (is_empty w.rubric_problems))
          (blocked (unmet_criteria v)
            (codes "gate rubric exit check: " ++ join (codes "; ") w.rubric_problems))
          (in_branches
            (cfg.goal_require_changes
              && is_empty (evidence_files files)
              && not (attainment_recorded w))
            (blocked [] (
              codes
                "no observable workspace change since run start — completion without evidence is not accepted"))
            (in_branches (cfg.goal_verify_tests && not w.test_gate.0)
              (blocked [] (codes "test gate failed: " ++ w.test_gate.1))
              (subst (λ t. IsAudited t files (after_review w measured v files answer))
                (audit_rubric-turn w started)
                (after_review-IsAudited w measured v files answer))))))
