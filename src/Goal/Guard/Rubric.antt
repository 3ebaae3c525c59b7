-- ===== src/Goal/Guard/Rubric.antt =====
-- supervisor/core/goal_guard.py: the exit checks of the gate rubric, and what a verified acceptance
-- means for the gates.
mod Tests
use super_opencode.Base.{
  ◌≡◌, ◌∙◌, refl, sym, ap, Bool, true, false, not, ◌&&◌, ◌||◌, Option, none, some, List, [], ◌∷◌,
  ◌++◌, map, keep, all, any, arith, inl, inr, Bool-cases, Option-cases, leb, if◌then◌else◌,
  is_empty, Text, codes,
}
use super_opencode.Decision.Service.{Claim}
use super_opencode.Protocols.Gates.{Entry, Gate, parse_gates}
use super_opencode.Protocols.Check.{Workspace, GateEvaluation, is_pass, measure_text}
use super_opencode.Protocols.Rubric.{evaluate_rubric}
use super_opencode.Protocols.Rubric.Violations.{verdict_violations, is_unknown}
use super_opencode.Protocols.Rubric.Answered.{is_evidenced, is_answered, sound_iff_answered}
use super_opencode.Protocols.Rubric.Measured.{is_passed, passes, evaluate_rubric-passes}
use super_opencode.Goal.Guard.{Config, World, Guard, Verdict, DoneDecision, evaluate_done}
use super_opencode.Goal.Guard.Exit.{is_supported, accepted_iff_supported}

unfoldable pub exit_problem : GateEvaluation → Text
exit_problem e =
    codes "machine gate "
    ++ e.name
    ++ codes " measured "
    ++ measure_text e.outcome
    ++ codes " ("
    ++ e.fact
    ++ codes ") — DONE requires PASS"

-- The problems of a verdict, by the evaluations.
unfoldable pub exit_problems : Workspace → List Claim → List Gate → List GateEvaluation → List Text
exit_problems ws claims gates evs =
    verdict_violations ws claims gates evs ++ map exit_problem (keep (λ e. not (is_passed e)) evs)

abbrev pub Checked : Type 0
Checked = Option (List GateEvaluation × List Text)

unfoldable pub checks_from :
    Workspace → List Claim → List Gate → Option (List GateEvaluation) → Checked
checks_from ws claims gates none = none
checks_from ws claims gates (some evs) = some (evs, exit_problems ws claims gates evs)

-- `_rubric_exit_checks`, with the evaluations; `none` is an error that it does not catch.
unfoldable pub rubric_exit_checks : Workspace → Option (List (Option Entry)) → List Claim → Checked
rubric_exit_checks ws entries claims =
    let gates = parse_gates entries in
    if is_empty gates then some ([], []) else checks_from ws claims gates (evaluate_rubric ws gates)

abbrev pub result_of : GateEvaluation → Text × Text
result_of e = (e.name, measure_text e.outcome)

unfoldable pub with_rubric : World → Checked → Option World
with_rubric w none = none
with_rubric w (some (evs, problems)) =
    some (record w { rubric_results = map result_of evs; rubric_problems = problems })

-- The world of a call of `evaluate_done`, with its rubric measured on the workspace.
unfoldable pub measured : Workspace → Verdict → World → Option World
measured ws v w = with_rubric w (rubric_exit_checks ws w.gate_facts v.criteria_results)

is_empty-append : (xs ys : List Text) → is_empty (xs ++ ys) ≡ (is_empty xs && is_empty ys)
is_empty-append [] ys = refl
is_empty-append (x ∷ xs) ys = refl

is_empty-failed :
    (evs : List GateEvaluation)
    → is_empty (map exit_problem (keep (λ e. not (is_passed e)) evs)) ≡ all is_passed evs
is_empty-failed [] = refl
is_empty-failed (e ∷ evs) = ground (arith, is_empty-failed evs)

-- What the checks without a problem show.
record IsClean (ws : Workspace) (gates : List Gate) (claims : List Claim) : Type 0 where
  passing : all (passes ws) gates ≡ true
  known : (is_empty gates || all (λ c. not (is_unknown gates c)) claims) ≡ true
  evidenced : (is_empty gates || all (is_evidenced ws) claims) ≡ true

without_gates :
    (ws : Workspace) (gates : List Gate) (claims : List Claim)
    → is_empty gates ≡ true
    → IsClean ws gates claims
without_gates ws [] claims h = record { passing = refl; known = refl; evidenced = refl }
without_gates ws (g ∷ gs) claims h = cc

checks_from-IsClean :
    (ws : Workspace) (entries : Option (List (Option Entry))) (claims : List Claim)
    (o : Option (List GateEvaluation)) (evs : List GateEvaluation) (problems : List Text)
    → evaluate_rubric ws (parse_gates entries) ≡ o
    → checks_from ws claims (parse_gates entries) o ≡ some (evs, problems)
    → is_empty problems ≡ true
    → IsClean ws (parse_gates entries) claims
unfolding checks_from exit_problems
checks_from-IsClean ws entries claims none evs problems ran done none_of = cc
checks_from-IsClean ws entries claims (some found) evs problems ran done none_of =
    let gates = parse_gates entries in
    let failed = map exit_problem (keep (λ e. not (is_passed e)) found) in
    let same : verdict_violations ws claims gates found ++ failed ≡ problems =
      ground (arith, done) in
    let both : (is_empty (verdict_violations ws claims gates found) && is_empty failed) ≡ true =
      sym (is_empty-append (verdict_violations ws claims gates found) failed)
      ∙ ap is_empty same
      ∙ none_of in
    let sound = sound_iff_answered ws claims gates found in
    let passed = is_empty-failed found in
    let every : all is_passed found ≡ true = ground (arith, both, passed) in
    record {
      passing = evaluate_rubric-passes ws entries found ran every;
      known = ground (arith, both, sound);
      evidenced = ground (arith, both, sound);
    }

rubric_exit_checks-IsClean :
    (ws : Workspace) (entries : Option (List (Option Entry))) (claims : List Claim)
    (evs : List GateEvaluation) (problems : List Text)
    → rubric_exit_checks ws entries claims ≡ some (evs, problems)
    → is_empty problems ≡ true
    → IsClean ws (parse_gates entries) claims
unfolding rubric_exit_checks
rubric_exit_checks-IsClean ws entries claims evs problems done none_of =
    elim (Bool-cases (is_empty (parse_gates entries))) [
      | inl no_gates ↦ without_gates ws (parse_gates entries) claims no_gates
      | inr gates ↦
          checks_from-IsClean ws entries claims (evaluate_rubric ws (parse_gates entries)) evs
            problems refl (ground (arith, done, gates)) none_of
    ]

with_rubric-IsClean :
    (ws : Workspace) (v : Verdict) (w m : World) (o : Checked)
    → rubric_exit_checks ws w.gate_facts v.criteria_results ≡ o
    → with_rubric w o ≡ some m
    → is_empty m.rubric_problems ≡ true
    → IsClean ws (parse_gates w.gate_facts) v.criteria_results
unfolding with_rubric
with_rubric-IsClean ws v w m none checked done none_of = cc
with_rubric-IsClean ws v w m (some (evs, problems)) checked done none_of =
    let same : problems ≡ m.rubric_problems = ground (arith, done) in
    rubric_exit_checks-IsClean ws w.gate_facts v.criteria_results evs problems checked
      (ap is_empty same ∙ none_of)

-- A completion claim that is accepted and not labelled unverified has a rubric in which the machine's
-- check of every gate passes, as measured on the workspace during that very call; and where there are
-- gates, every criterion of the verdict names one, and the files that it cites for a criterion it calls
-- met exist.
pub verified_done_passes :
    (cfg : Config) (ws : Workspace) (w m : World) (g : Guard) (v : Verdict) (files : List Text)
    (output : Text)
    → measured ws v w ≡ some m
    → (evaluate_done cfg m g v files output).1.accepted ≡ true
    → (evaluate_done cfg m g v files output).1.unverified ≡ false
    → let gates = parse_gates w.gate_facts in
      (all (passes ws) gates ≡ true)
      × ((is_empty gates || all (λ c. not (is_unknown gates c)) v.criteria_results) ≡ true)
      × ((is_empty gates || all (is_evidenced ws) v.criteria_results) ≡ true)
unfolding measured is_supported
verified_done_passes cfg ws w m g v files output done took labelled =
    let (accepted, unverified) = accepted_iff_supported cfg m g v files output in
    let clear : is_empty m.rubric_problems ≡ true =
      ground (arith, accepted, unverified, took, labelled) in
    let c =
      with_rubric-IsClean ws v w m (rubric_exit_checks ws w.gate_facts v.criteria_results) refl done
        clear in
    (c.passing, c.known, c.evidenced)
