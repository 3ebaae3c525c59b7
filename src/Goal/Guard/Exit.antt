-- ===== src/Goal/Guard/Exit.antt =====
-- supervisor/core/goal_guard.py: when a completion claim ends a run.
use super_opencode.Base.{
  ◌+◌, ◌<◌, ◌≤◌, ◌≡◌, refl, Bool, true, false, not, ◌&&◌, ◌||◌, Option, none, some, List, [], ◌∷◌,
  arith, inl, inr, Bool-cases, any, leb, if◌then◌else◌, is_empty, length, Text,
}
use super_opencode.Decision.Choice.{ChoiceDecision}
use super_opencode.Goal.Evidence.{evidence_files}
use super_opencode.Goal.Guard.{
  Config, World, Guard, Verdict, DoneDecision, unmet_criteria, attainment_recorded, done_review,
  rejects, audit, block, accept, accept_unverified, accept_verified, after_review, audit_rubric,
  evaluate_done,
}

unfoldable pub clears : Option ChoiceDecision → Bool
clears none = true
clears (some d) = not (rejects d)

-- The claim stands: no criterion is unmet, the rubric has no problem, there is evidence where changes
-- are asked for, the tests pass where they are asked for, and the arbiter does not reject.
unfoldable pub is_supported : Config → World → Verdict → List Text → Text → Bool
is_supported cfg w v files output =
    is_empty (unmet_criteria v)
    && is_empty w.rubric_problems
    && (not cfg.goal_require_changes
        || not (is_empty (evidence_files files))
        || attainment_recorded w)
    && (not cfg.goal_verify_tests || w.test_gate.0)
    && clears (done_review cfg w v files output)

after_review-accepted :
    (w : World) (g : Guard) (v : Verdict) (files : List Text) (answer : Option ChoiceDecision)
    → ((after_review w g v files answer).1.accepted ≡ clears answer)
      × ((after_review w g v files answer).1.unverified ≡ false)
unfolding after_review clears accept_verified accept block
after_review-accepted w g v files none = (refl, refl)
after_review-accepted w g v files (some d) = ground arith

-- A completion claim is accepted exactly where the cap on blocked claims is reached, or it has no
-- unmet criterion and no problem in the rubric, evidence files or a recorded pass where changes are
-- required, a passed test gate where tests are required, and no rejection by the arbiter. An
-- acceptance is labelled unverified exactly where the cap is reached.
pub accepted_iff_supported :
    (cfg : Config) (w : World) (g : Guard) (v : Verdict) (files : List Text) (output : Text)
    → let capped = leb cfg.max_blocked_stops g.blocked_stops in
      let decision : DoneDecision = (evaluate_done cfg w g v files output).1 in
      (decision.accepted ≡ (capped || is_supported cfg w v files output))
      × (decision.unverified ≡ capped)
unfolding evaluate_done is_supported accept_unverified accept block
accepted_iff_supported cfg w g v files output = ground (
  arith,
  after_review-accepted w (audit_rubric w (record g { turn = g.turn + 1 })) v files
      (done_review cfg w v files output),
)

after_review-blocked_stops :
    (w : World) (g : Guard) (v : Verdict) (files : List Text) (answer : Option ChoiceDecision)
    → (after_review w g v files answer).0.blocked_stops
      ≡ g.blocked_stops + (if (after_review w g v files answer).1.accepted then 0 else 1)
unfolding after_review accept_verified accept block audit
after_review-blocked_stops w g v files none = omega arith
after_review-blocked_stops w g v files (some d) = ground arith

audit_rubric-blocked_stops :
    (w : World) (g : Guard) → (audit_rubric w g).blocked_stops ≡ g.blocked_stops
unfolding audit_rubric audit
audit_rubric-blocked_stops w g = ground arith

-- A rejection is counted, and none is made at the cap.
evaluate_done-blocked :
    (cfg : Config) (w : World) (g : Guard) (v : Verdict) (files : List Text) (output : Text)
    → (evaluate_done cfg w g v files output).1.accepted ≡ false
    → (g.blocked_stops < cfg.max_blocked_stops)
      × ((evaluate_done cfg w g v files output).0.blocked_stops ≡ g.blocked_stops + 1)
unfolding evaluate_done accept_unverified accept block audit
evaluate_done-blocked cfg w g v files output =
    let started : Guard = record g { turn = g.turn + 1 } in
    ground (
      arith,
      audit_rubric-blocked_stops w started,
      after_review-blocked_stops w (audit_rubric w started) v files
          (done_review cfg w v files output),
    )

-- A completion claim with what the outside answers to it.
pub record Proposal : Type 0 where
  pub world : World
  pub verdict : Verdict
  pub changed_files : List Text
  pub output : Text

-- The acceptances of a sequence of claims.
unfoldable pub acceptances : Config → Guard → List Proposal → List Bool
acceptances cfg g [] = []
acceptances cfg g (p ∷ ps) =
    let (g', d) = evaluate_done cfg p.world g p.verdict p.changed_files p.output in
    d.accepted ∷ acceptances cfg g' ps

-- Among more claims than the cap leaves rejections for, at least one is accepted, whatever the
-- outside answers: the loop cannot be kept open by rejections.
pub cap_accepts :
    (cfg : Config) (g : Guard) (ps : List Proposal)
    → cfg.max_blocked_stops < g.blocked_stops + length ps
    → g.blocked_stops ≤ cfg.max_blocked_stops
    → any (λ b. b) (acceptances cfg g ps) ≡ true
unfolding acceptances
cap_accepts cfg g [] many below = absurd (omega (arith, many, below))
cap_accepts cfg g (p ∷ ps) many below =
    let r : Guard × DoneDecision = evaluate_done cfg p.world g p.verdict p.changed_files p.output in
    elim (Bool-cases r.1.accepted) [
      | inl took ↦ simp took
      | inr lost ↦
          let (room, counted) =
            evaluate_done-blocked cfg p.world g p.verdict p.changed_files p.output lost in
          let rest = cap_accepts cfg r.0 ps (omega arith) (omega arith) in simp (lost, rest)
    ]
