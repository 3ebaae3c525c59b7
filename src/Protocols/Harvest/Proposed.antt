-- ===== src/Protocols/Harvest/Proposed.antt =====
-- supervisor/protocols/gate_rubric.py: the proposals to block that a harvest makes.
use super_opencode.Base.{
  ℕ, ◌+◌, ◌≤◌, ◌≡◌, ◌∙◌, refl, sym, ap, Bool, true, false, not, ◌&&◌, ◌||◌, Option, none, some,
  List, [], ◌∷◌, ◌++◌, any, keep, leb, arith, Option-cases, ◌⊎◌, inl, inr, subst, ◌≢◌,
  if◌then◌else◌, Text, codes, text_eq, text_eq_refl,
}
use super_opencode.Protocols.Harvest.{
  RubricGate, Proposal, Outcome, Facts, find_gate, transition, on_gate, apply_outcome,
  apply_harvest, provenance, block_proposal_streak, is_pending,
}
use super_opencode.Protocols.Harvest.Guarded.{IsGuarded, apply_harvest-IsGuarded}
use super_opencode.Protocols.Harvest.Earned.{
  next_streak, in_a_row, IsCounted, outcome-IsCounted, apply_harvest-IsCounted,
}

pub data IsListed (p : Proposal) : List Proposal → Type 0 where
  here : {ps : List Proposal} → IsListed p (p ∷ ps)
  there : {q : Proposal} {ps : List Proposal} → IsListed p ps → IsListed p (q ∷ ps)

-- A proposal for a gate that had failed so often in a row, enough times, after some of the outcomes.
pub record IsEarned (facts : Facts) (os : List Outcome) (p : Proposal) : Type 0 where
  pub front : List Outcome
  pub back : List Outcome
  pub split : os ≡ front ++ back
  pub gate : RubricGate
  pub found : find_gate p.gate facts.gates ≡ some gate
  pub counted : p.streak ≡ in_a_row p.gate front gate.fail_streak
  pub enough : block_proposal_streak ≤ p.streak

cons-IsListed :
    (p q : Proposal) (xs ys : List Proposal) (b : Bool)
    → (IsListed p xs → IsListed p ys)
    → IsListed p (if b then q ∷ xs else xs)
    → IsListed p (q ∷ ys)
cons-IsListed p q xs ys true rest here = here
cons-IsListed p q xs ys true rest (there j) = there (rest j)
cons-IsListed p q xs ys false rest j = there (rest j)

keep-IsListed :
    (test : Proposal → Bool) (p : Proposal) (ps : List Proposal)
    → IsListed p (keep test ps)
    → IsListed p ps
keep-IsListed test p [] i = i
keep-IsListed test p (q ∷ ps) i =
    cons-IsListed p q (keep test ps) ps (test q) (keep-IsListed test p ps) i

snoc-IsListed :
    (p q : Proposal) (ps : List Proposal) → IsListed p (ps ++ q ∷ []) → IsListed p ps ⊎ (q ≡ p)
snoc-IsListed p q [] here = inr refl
snoc-IsListed p q [] (there i) = elim i [ ]
snoc-IsListed p q (r ∷ ps) here = inl here
snoc-IsListed p q (r ∷ ps) (there i) = elim (snoc-IsListed p q ps i) [
  | inl j ↦ inl (there j)
  | inr e ↦ inr e
]

abbrev proposal_of : Text → Outcome → RubricGate → Proposal
proposal_of prov o g = record { gate = o.gate; streak = g.fail_streak + 1; evidence = prov }

counts-failure :
    (o : Outcome) (n : ℕ)
    → text_eq o.conclusion (codes "PASS") ≡ false
    → (text_eq o.conclusion (codes "FAIL") || text_eq o.conclusion (codes "UNMET")) ≡ true
    → next_streak o.gate o n ≡ n + 1
unfolding next_streak
counts-failure o n passes fails = rw (text_eq_refl o.gate) (rw passes (rw fails refl))

module _ (prov : Text) (facts : Facts) (g : RubricGate) (o : Outcome) where
  passes : Bool
  passes = text_eq o.conclusion (codes "PASS")

  fails : Bool
  fails = text_eq o.conclusion (codes "FAIL") || text_eq o.conclusion (codes "UNMET")

  due : Bool
  due =
      leb block_proposal_streak (g.fail_streak + 1)
      && not (any (is_pending o.gate) facts.pending_blocked)

  abbrev proposals_after : Bool → Bool → Bool → List Proposal
  proposals_after passed failed ready =
      if passed
      then keep (λ q. not (is_pending o.gate q)) facts.pending_blocked
      else if failed
      then (if ready
          then facts.pending_blocked ++ proposal_of prov o g ∷ []
          else facts.pending_blocked)
      else facts.pending_blocked

  transition-pending :
      (transition prov facts g o).pending_blocked ≡ proposals_after passes fails due
  unfolding transition passes fails due
  transition-pending = ground arith

  earned :
      (os : List Outcome)
      → find_gate o.gate facts.gates ≡ some g
      → passes ≡ false
      → fails ≡ true
      → due ≡ true
      → IsEarned facts (o ∷ os) (proposal_of prov o g)
  unfolding passes fails due in_a_row
  earned os found pass fail ready = record {
    front = o ∷ [];
    back = os;
    split = refl;
    gate = g;
    found = found;
    counted = sym (counts-failure o g.fail_streak pass fail);
    enough = ground (arith, ready);
  }

  by_flags :
      (os : List Outcome) (p : Proposal) (passed failed ready : Bool)
      → (passed ≡ false
          → failed ≡ true
          → ready ≡ true
          → IsEarned facts (o ∷ os) (proposal_of prov o g))
      → IsListed p (proposals_after passed failed ready)
      → IsListed p facts.pending_blocked ⊎ IsEarned facts (o ∷ os) p
  by_flags os p true failed ready new i =
      inl (keep-IsListed (λ q. not (is_pending o.gate q)) p facts.pending_blocked i)
  by_flags os p false false ready new i = inl i
  by_flags os p false true false new i = inl i
  by_flags os p false true true new i =
      elim (snoc-IsListed p (proposal_of prov o g) facts.pending_blocked i) [
        | inl old ↦ inl old
        | inr e ↦ inr (subst (IsEarned facts (o ∷ os)) e (new refl refl refl))
      ]

  transition-IsEarned :
      (os : List Outcome) (p : Proposal)
      → find_gate o.gate facts.gates ≡ some g
      → IsListed p (transition prov facts g o).pending_blocked
      → IsListed p facts.pending_blocked ⊎ IsEarned facts (o ∷ os) p
  transition-IsEarned os p found i =
      by_flags os p passes fails due (earned os found) (subst (IsListed p) transition-pending i)

on_gate-IsEarned :
    (prov : Text) (facts : Facts) (o : Outcome) (os : List Outcome) (p : Proposal)
    (r : Option RubricGate)
    → find_gate o.gate facts.gates ≡ r
    → IsListed p (on_gate prov facts o r).pending_blocked
    → IsListed p facts.pending_blocked ⊎ IsEarned facts (o ∷ os) p
unfolding on_gate
on_gate-IsEarned prov facts o os p none found i = inl i
on_gate-IsEarned prov facts o os p (some g) found i =
    transition-IsEarned prov facts g o os p found i

module _ (run_id revision : Text) where
  outcome-IsEarned :
      (facts : Facts) (o : Outcome) (os : List Outcome) (p : Proposal)
      → IsListed p (apply_outcome run_id revision facts o).pending_blocked
      → IsListed p facts.pending_blocked ⊎ IsEarned facts (o ∷ os) p
  unfolding apply_outcome
  outcome-IsEarned facts o os p i =
      on_gate-IsEarned (provenance run_id revision o) facts o os p (find_gate o.gate facts.gates)
        refl i

  -- A proposal that is earned after one more outcome is earned.
  later-IsEarned :
      (facts : Facts) (o : Outcome) (os : List Outcome) (p : Proposal)
      → IsEarned (apply_outcome run_id revision facts o) os p
      → IsEarned facts (o ∷ os) p
  unfolding in_a_row
  later-IsEarned facts o os p e =
      let c = outcome-IsCounted run_id revision facts o p.gate in
      elim (Option-cases (find_gate p.gate facts.gates)) [
        | inl missing ↦ absurd (none_is_not_some (sym (c.still_none missing) ∙ e.found))
        | inr (g, found) ↦
            let k = c.counted g found in
            record {
              front = o ∷ e.front;
              back = e.back;
              split = ap (λ z. o ∷ z) e.split;
              gate = g;
              found = found;
              counted =
                  e.counted
                  ∙ ap (in_a_row p.gate e.front) (
                      ap (λ (z : RubricGate). z.fail_streak) (same_some (sym e.found ∙ k.found))
                      ∙ k.streak);
              enough = e.enough;
            }
      ]
    where
      none_is_not_some : {x : RubricGate} → none ≢ some x
      none_is_not_some h = cc

      same_some : {x y : RubricGate} → some x ≡ some y → x ≡ y
      same_some h = cc

  proposals-IsEarned :
      (facts : Facts) (os : List Outcome) (p : Proposal)
      → IsListed p (apply_harvest run_id revision facts os).pending_blocked
      → IsListed p facts.pending_blocked ⊎ IsEarned facts os p
  unfolding apply_harvest
  proposals-IsEarned facts [] p i = inl i
  proposals-IsEarned facts (o ∷ os) p i =
      elim (proposals-IsEarned (apply_outcome run_id revision facts o) os p i) [
        | inl old ↦ outcome-IsEarned facts o os p old
        | inr e ↦ inr (later-IsEarned facts o os p e)
      ]

  -- Whatever outcomes a harvest holds, applying it keeps the names of the gates in their order. The gate
  -- of a name then has the count of its failures in a row, with 0 after a pass, and is blocked only if
  -- it was. Every proposal to block is an old one, or one for a gate that had at least three failures in
  -- a row after some of the outcomes, counted from what the file had: blocking is left to the operator.
  pub harvest_counts_failures :
      (facts : Facts) (os : List Outcome)
      → IsGuarded facts (apply_harvest run_id revision facts os)
        × ((name : Text)
            → IsCounted
                (in_a_row name os)
                (find_gate name facts.gates)
                (find_gate name (apply_harvest run_id revision facts os).gates))
        × ((p : Proposal)
            → IsListed p (apply_harvest run_id revision facts os).pending_blocked
            → IsListed p facts.pending_blocked ⊎ IsEarned facts os p)
  harvest_counts_failures facts os = (
    apply_harvest-IsGuarded run_id revision facts os,
    apply_harvest-IsCounted run_id revision facts os,
    proposals-IsEarned facts os,
  )
