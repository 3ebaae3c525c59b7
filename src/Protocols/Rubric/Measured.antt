-- ===== src/Protocols/Rubric/Measured.antt =====
-- supervisor/protocols/gate_rubric.py: evaluate_rubric leaves out no gate that a machine can check.
use super_opencode.Base.{
  ℕ, codes, ◌≡◌, ◌∙◌, refl, sym, ap, Bool, true, false, not, ◌&&◌, ◌||◌, Option, none, some, List,
  [], ◌∷◌, ◌++◌, all, any, arith, inl, inr, Option-cases, lower, Text, text_eq, text_eq_iff,
}
use super_opencode.Protocols.Gates.{Gate, Entry, Check, Scalar, parse_gates}
use super_opencode.Protocols.Gates.Names.{IsNew, HasValidNames, parse_gates-HasValidNames}
use super_opencode.Protocols.Check.{
  Workspace, Json, Reading, missing, unreadable, document, Ran, unsplit, timed_out, failed, exited,
  text_at, get_check, expected_code, is_pass, GateEvaluation, command_result, evaluate_command,
}
use super_opencode.Protocols.Metric.{
  evaluate_metric, metric_by, metric_from, metric_value, compare_metric, walk, split_from,
  number_of, find_op, partition, given,
}
use super_opencode.Protocols.Rubric.{
  check_of, evaluate_check, put_evaluation, evaluate_from, evaluate_rubric,
}

abbrev pub is_passed : GateEvaluation → Bool
is_passed e = is_pass e.outcome

-- whether the machine's check of a gate passes, where it has one
unfoldable pub passes : Workspace → Gate → Bool
passes ws g = elim (check_of g) [
  | none ↦ true
  | some check ↦ elim (evaluate_check ws g check) [ none ↦ false | some e ↦ is_passed e ]
]

-- no evaluation has the name of the gate
abbrev pub is_free : List GateEvaluation → Gate → Bool
is_free out g = not (any (λ (e : GateEvaluation). text_eq e.name g.name) out)

put-new :
    (e : GateEvaluation) (out : List GateEvaluation)
    → any (λ (d : GateEvaluation). text_eq d.name e.name) out ≡ false
    → put_evaluation e out ≡ out ++ e ∷ []
unfolding put_evaluation
put-new e [] h = refl
put-new e (d ∷ ds) h = ground (arith, h, put-new e ds)

all-append :
    (p : GateEvaluation → Bool) (xs ys : List GateEvaluation)
    → all p (xs ++ ys) ≡ (all p xs && all p ys)
all-append p [] ys = refl
all-append p (x ∷ xs) ys = ground (arith, all-append p xs ys)

any-append :
    (p : GateEvaluation → Bool) (xs ys : List GateEvaluation)
    → any p (xs ++ ys) ≡ (any p xs || any p ys)
any-append p [] ys = refl
any-append p (x ∷ xs) ys = ground (arith, any-append p xs ys)

-- the gates that are left have names of their own, none of which has an evaluation
AreFree : List GateEvaluation → List Gate → Type 0
AreFree out [] = Unit {0}
AreFree out (g ∷ gs) = (is_free out g ≡ true) × IsNew (lower g.name) gs × AreFree out gs

-- An evaluation of a new name keeps the others free.
AreFree-cons :
    (e : GateEvaluation) (out : List GateEvaluation) (gs : List Gate)
    → IsNew (lower e.name) gs
    → AreFree out gs
    → AreFree (out ++ e ∷ []) gs
unfolding AreFree
AreFree-cons e out [] new h = tt
AreFree-cons e out (g ∷ gs) (apart, new) (free, own, rest) =
    let apart' : text_eq e.name g.name ≡ false =
      ground (
        arith,
        text_eq_iff e.name g.name,
        λ (same : e.name ≡ g.name). apart (ap lower (sym same)),
      ) in
    (
      ground (
        arith,
        free,
        apart',
        any-append (λ (d : GateEvaluation). text_eq d.name g.name) out (e ∷ []),
      ),
      own,
      AreFree-cons e out gs new rest,
    )

compare_metric-name :
    (g : Gate) (name op source : Text) (test : ℕ → ℕ → Bool) (observed : ℕ) (value : Scalar)
    → (compare_metric g name op source test observed value).name ≡ g.name
unfolding compare_metric
compare_metric-name g name op source test observed value = ground arith

metric_value-name :
    (g : Gate) (name op source : Text) (test : ℕ → ℕ → Bool) (file keys : Text) (value : Scalar)
    (doc : Json)
    → (metric_value g name op source test file keys value doc).name ≡ g.name
unfolding metric_value
metric_value-name g name op source test file keys value doc =
    elim (Option-cases (walk (split_from 46 [] keys) doc)) [
      | inl lost ↦ ground (arith, lost)
      | inr (node, found) ↦ elim (Option-cases (number_of node)) [
        | inl other ↦ ground (arith, found, other)
        | inr (n, read) ↦
            ground (arith, found, read, compare_metric-name g name op source test n value)
      ]
    ]

metric_from-name :
    (g : Gate) (name op source : Text) (test : ℕ → ℕ → Bool) (file keys : Text) (value : Scalar)
    (r : Reading)
    → (metric_from g name op source test file keys value r).name ≡ g.name
unfolding metric_from
metric_from-name g name op source test file keys value missing = refl
metric_from-name g name op source test file keys value (unreadable exc) = refl
metric_from-name g name op source test file keys value (document doc) =
    metric_value-name g name op source test file keys value doc

metric_by-name :
    (ws : Workspace) (g : Gate) (name op source : Text) (value : Scalar)
    → (metric_by ws g name op source value).name ≡ g.name
unfolding metric_by
metric_by-name ws g name op source value = elim (Option-cases (find_op op)) [
  | inl unknown ↦ ground (arith, unknown)
  | inr (test, known) ↦
      let (file, keys) = partition 58 source in
      let from = metric_from-name g name op source test file keys value (ws.read file) in
      ground (arith, known, from)
]

evaluate_metric-name :
    (ws : Workspace) (g : Gate) (check : Check) → (evaluate_metric ws g check).name ≡ g.name
unfolding evaluate_metric
evaluate_metric-name ws g check = elim (Option-cases (given (get_check (codes "value") check))) [
  | inl lost ↦ ground (arith, lost)
  | inr (value, found) ↦
      let by =
        metric_by-name ws g (text_at (codes "metric") check) (text_at (codes "op") check)
          (text_at (codes "source") check) value in
      ground (arith, found, by)
]

command_result-name :
    (ws : Workspace) (g : Gate) (cmd : Text) (expect : ℕ) (r : Ran) (e : GateEvaluation)
    → command_result ws g cmd expect r ≡ some e
    → e.name ≡ g.name
unfolding command_result
command_result-name ws g cmd expect unsplit e h = cc
command_result-name ws g cmd expect timed_out e h = ground (arith, h)
command_result-name ws g cmd expect (failed exc) e h = ground (arith, h)
command_result-name ws g cmd expect (exited code out err) e h = ground (arith, h)

evaluate_check-name :
    (ws : Workspace) (g : Gate) (check : Check) (e : GateEvaluation)
    → evaluate_check ws g check ≡ some e
    → e.name ≡ g.name
unfolding evaluate_check evaluate_command
evaluate_check-name ws g check e h =
    let cmd = text_at (codes "cmd") check in
    let ran = command_result-name ws g cmd (expected_code check) (ws.run cmd) e in
    let measured = evaluate_metric-name ws g check in ground (arith, h, ran, measured)

evaluate_from-passes :
    (ws : Workspace) (out evs : List GateEvaluation) (gs : List Gate)
    → AreFree out gs
    → evaluate_from ws out gs ≡ some evs
    → all is_passed evs ≡ true
    → (all is_passed out ≡ true) × (all (passes ws) gs ≡ true)
unfolding evaluate_from passes AreFree
evaluate_from-passes ws out evs [] free done h = (ground (arith, done, h), refl)
evaluate_from-passes ws out evs (g ∷ gs) (free, own, rest) done h =
    elim (Option-cases (check_of g)) [
      | inl manual ↦
          let (before, behind) =
            evaluate_from-passes ws out evs gs rest (ground (arith, done, manual)) h in
          (before, ground (arith, manual, behind))
      | inr (check, machine) ↦ elim (Option-cases (evaluate_check ws g check)) [
        | inl raises ↦ ground (arith, done, machine, raises)
        | inr (e, measured) ↦
            let same = evaluate_check-name ws g check e measured in
            let put : put_evaluation e out ≡ out ++ e ∷ [] =
              put-new e out (rw same (ground (arith, free))) in
            let new : IsNew (lower e.name) gs = rw same own in
            let (before, behind) =
              evaluate_from-passes ws (out ++ e ∷ []) evs gs (AreFree-cons e out gs new rest)
                (ground (arith, done, machine, measured, put)) h in
            let (first, last) =
              both (all is_passed out) (is_passed e)
                (sym (all-append is_passed out (e ∷ [])) ∙ before) in
            (first, ground (arith, machine, measured, last, behind))
      ]
    ]
  where
    both : (a b : Bool) → (a && (b && true)) ≡ true → (a ≡ true) × (b ≡ true)
    both a b h = ground (arith, h)

valid-AreFree : (gs : List Gate) → HasValidNames gs → AreFree [] gs
unfolding AreFree
valid-AreFree [] h = tt
valid-AreFree (g ∷ gs) (named, new, rest) = (refl, new, valid-AreFree gs rest)

-- Where all evaluations of the gates of a facts file pass, the machine's check of every such gate passes:
-- no gate is left out or covered by another one.
pub evaluate_rubric-passes :
    (ws : Workspace) (entries : Option (List (Option Entry))) (evs : List GateEvaluation)
    → evaluate_rubric ws (parse_gates entries) ≡ some evs
    → all is_passed evs ≡ true
    → all (passes ws) (parse_gates entries) ≡ true
unfolding evaluate_rubric
evaluate_rubric-passes ws entries evs done h =
    (evaluate_from-passes ws [] evs (parse_gates entries)
      (valid-AreFree (parse_gates entries) (parse_gates-HasValidNames entries)) done h).1
