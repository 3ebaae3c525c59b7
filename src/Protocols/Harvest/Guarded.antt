-- ===== src/Protocols/Harvest/Guarded.antt =====
-- supervisor/protocols/gate_rubric.py: the guarded transitions of a harvest.
use super_opencode.Base.{
  ℕ, ◌+◌, ◌≤◌, ◌≡◌, ◌∙◌, refl, Bool, true, Option, none, some, List, [], ◌∷◌, ◌++◌, map, keep,
  arith, Bool-cases, inl, inr, count_if, Text, codes, text_eq, not,
}
use super_opencode.Protocols.Harvest.{
  RubricGate, Proposal, Outcome, Facts, update_gate, find_gate, pass_gate, fail_gate, transition,
  on_gate, apply_outcome, apply_harvest, provenance, block_proposal_streak, is_pending,
}

abbrev pub is_blocked : RubricGate → Bool
is_blocked g = text_eq g.status (codes "blocked")

abbrev pub names : List RubricGate → List Text
names gates = map (λ (g : RubricGate). g.name) gates

-- A change that keeps the name and does not block.
IsMild : (RubricGate → RubricGate) → Type 0
IsMild f =
    (g : RubricGate) → ((f g).name ≡ g.name) × (is_blocked (f g) ≡ true → is_blocked g ≡ true)

update_gate-names :
    (name : Text) (f : RubricGate → RubricGate) (gs : List RubricGate)
    → IsMild f
    → names (update_gate name f gs) ≡ names gs
unfolding update_gate IsMild
update_gate-names name f [] mild = refl
update_gate-names name f (g ∷ gs) mild =
    ground (arith, update_gate-names name f gs mild, (mild g).0)

update_gate-blocked :
    (name : Text) (f : RubricGate → RubricGate) (gs : List RubricGate)
    → IsMild f
    → count_if is_blocked (update_gate name f gs) ≤ count_if is_blocked gs
unfolding update_gate IsMild
update_gate-blocked name f [] mild = omega arith
update_gate-blocked name f (g ∷ gs) mild =
    ground (arith, update_gate-blocked name f gs mild, (mild g).1)

-- Proposals to block that rest on enough failures in a row.
unfoldable pub AreLong : List Proposal → Type 0
AreLong [] = Unit {0}
AreLong (p ∷ ps) = (block_proposal_streak ≤ p.streak) × AreLong ps

-- What a harvest keeps: the names in their order, no gate that becomes blocked, and proposals that
-- rest on long streaks only.
pub record IsGuarded (before after : Facts) : Type 0 where
  pub same_names : names after.gates ≡ names before.gates
  pub no_more_blocked : count_if is_blocked after.gates ≤ count_if is_blocked before.gates
  pub long_streaks : AreLong before.pending_blocked → AreLong after.pending_blocked

pass_gate-IsMild : (prov : Text) → IsMild (pass_gate prov)
unfolding IsMild text_eq
pass_gate-IsMild prov g = (refl, λ h. ground (arith, h))

fail_gate-IsMild : (streak : ℕ) → IsMild (fail_gate streak)
unfolding IsMild
fail_gate-IsMild streak g = (refl, λ h. h)

AreLong-keep : (p : Proposal → Bool) (ps : List Proposal) → AreLong ps → AreLong (keep p ps)
unfolding AreLong
AreLong-keep p [] h = tt
AreLong-keep p (x ∷ ps) (first, rest) = elim (Bool-cases (p x)) [
  | inl kept ↦ rw kept (first, AreLong-keep p ps rest)
  | inr dropped ↦ rw dropped (AreLong-keep p ps rest)
]

AreLong-snoc :
    (ps : List Proposal) (p : Proposal)
    → AreLong ps
    → block_proposal_streak ≤ p.streak
    → AreLong (ps ++ p ∷ [])
unfolding AreLong
AreLong-snoc [] p h last = (last, tt)
AreLong-snoc (x ∷ ps) p (first, rest) last = (first, AreLong-snoc ps p rest last)

transition-IsGuarded :
    (prov : Text) (facts : Facts) (g : RubricGate) (o : Outcome)
    → IsGuarded facts (transition prov facts g o)
unfolding transition
transition-IsGuarded prov facts g o =
    let passed = pass_gate prov in
    let failed = fail_gate (g.fail_streak + 1) in
    record {
      same_names = ground (
        arith,
        update_gate-names o.gate passed facts.gates (pass_gate-IsMild prov),
        update_gate-names o.gate failed facts.gates (fail_gate-IsMild (g.fail_streak + 1)),
      );
      no_more_blocked = ground (
        arith,
        update_gate-blocked o.gate passed facts.gates (pass_gate-IsMild prov),
        update_gate-blocked o.gate failed facts.gates (fail_gate-IsMild (g.fail_streak + 1)),
      );
      long_streaks = λ h.
          let kept = AreLong-keep (λ p. not (is_pending o.gate p)) facts.pending_blocked h in
          let added =
            AreLong-snoc facts.pending_blocked
              (record { gate = o.gate; streak = g.fail_streak + 1; evidence = prov }) h in
          ground (arith, h, kept, added);
    }

IsGuarded-refl : (facts : Facts) → IsGuarded facts facts
IsGuarded-refl facts = record {
  same_names = refl;
  no_more_blocked = omega arith;
  long_streaks = λ h. h;
}

IsGuarded-trans : (a b c : Facts) → IsGuarded a b → IsGuarded b c → IsGuarded a c
IsGuarded-trans a b c p q = record {
  same_names = q.same_names ∙ p.same_names;
  no_more_blocked = omega (arith, p.no_more_blocked, q.no_more_blocked);
  long_streaks = λ h. q.long_streaks (p.long_streaks h);
}

on_gate-IsGuarded :
    (prov : Text) (facts : Facts) (o : Outcome) (found : Option RubricGate)
    → IsGuarded facts (on_gate prov facts o found)
unfolding on_gate
on_gate-IsGuarded prov facts o none = IsGuarded-refl facts
on_gate-IsGuarded prov facts o (some g) = transition-IsGuarded prov facts g o

apply_outcome-IsGuarded :
    (run_id revision : Text) (facts : Facts) (o : Outcome)
    → IsGuarded facts (apply_outcome run_id revision facts o)
unfolding apply_outcome
apply_outcome-IsGuarded run_id revision facts o =
    on_gate-IsGuarded (provenance run_id revision o) facts o (find_gate o.gate facts.gates)

-- Whatever outcomes a harvest holds, applying it keeps the gates and their order, never turns a gate
-- into a blocked one, and adds a proposal to block only for a gate that failed at least three times
-- in a row: blocking is left to the operator.
pub apply_harvest-IsGuarded :
    (run_id revision : Text) (facts : Facts) (os : List Outcome)
    → IsGuarded facts (apply_harvest run_id revision facts os)
unfolding apply_harvest
apply_harvest-IsGuarded run_id revision facts [] = IsGuarded-refl facts
apply_harvest-IsGuarded run_id revision facts (o ∷ os) =
    let next : Facts = apply_outcome run_id revision facts o in
    IsGuarded-trans facts next (apply_harvest run_id revision next os)
      (apply_outcome-IsGuarded run_id revision facts o)
      (apply_harvest-IsGuarded run_id revision next os)
