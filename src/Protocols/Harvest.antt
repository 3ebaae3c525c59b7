-- ===== src/Protocols/Harvest.antt =====
-- supervisor/protocols/gate_rubric.py: apply_harvest. The gates of a facts file are
-- records of the keys that the harvest reads or writes.
pub mod Guarded
pub mod Earned
pub mod Proposed
mod Tests
use super_opencode.Base.{
  ℕ, ◌+◌, Bool, true, false, not, ◌&&◌, ◌||◌, Option, none, some, List, [], ◌∷◌, ◌++◌, map, keep,
  any, leb, ◌==◌, if◌then◌else◌, is_empty, reverse, Text, codes, text_eq, show_nat,
}

pub record RubricGate : Type 0 where
  pub name : Text
  pub status : Text
  pub evidence : Text
  pub fail_streak : ℕ

-- An entry of `pending_blocked`.
pub record Proposal : Type 0 where
  pub gate : Text
  pub streak : ℕ
  pub evidence : Text

-- An entry of the harvest's `results`.
pub record Outcome : Type 0 where
  pub gate : Text
  pub conclusion : Text
  pub fact : Text
  pub source : Text

pub record Facts : Type 0 where
  pub gates : List RubricGate
  pub pending_blocked : List Proposal

abbrev pub block_proposal_streak : ℕ
block_proposal_streak = 3

drop_marks : Text → Text
drop_marks [] = []
drop_marks (c ∷ s) = if c == b';' || c == b' ' then drop_marks s else c ∷ s

unfoldable pub provenance : Text → Text → Outcome → Text
unfolding drop_marks
provenance run_id revision o =
    let text =
      o.fact
      ++ (codes "; "
          ++ (o.source ++ (codes "; run " ++ (run_id ++ (codes " rev " ++ revision))))) in
    reverse (drop_marks (reverse (drop_marks text)))

abbrev pub is_named : Text → RubricGate → Bool
is_named name g = text_eq g.name name

-- The change of `by_name[name]`: the last gate of the name.
unfoldable pub update_gate : Text → (RubricGate → RubricGate) → List RubricGate → List RubricGate
update_gate name f [] = []
update_gate name f (g ∷ gs) =
    if is_named name g && not (any (is_named name) gs) then f g ∷ gs else g ∷ update_gate name f gs

-- `by_name.get(name)`
unfoldable pub find_gate : Text → List RubricGate → Option RubricGate
find_gate name [] = none
find_gate name (g ∷ gs) =
    if is_named name g && not (any (is_named name) gs) then some g else find_gate name gs

abbrev pub pass_gate : Text → RubricGate → RubricGate
pass_gate prov g = record g { status = codes "passing"; evidence = prov; fail_streak = 0 }

abbrev pub fail_gate : ℕ → RubricGate → RubricGate
fail_gate streak g = record g { fail_streak = streak }

abbrev pub is_pending : Text → Proposal → Bool
is_pending name p = text_eq p.gate name

-- One round of the loop on an outcome of a gate that exists.
unfoldable pub transition : Text → Facts → RubricGate → Outcome → Facts
transition prov facts g o =
    let streak = g.fail_streak + 1 in
    if text_eq o.conclusion (codes "PASS")
    then record {
      gates = update_gate o.gate (pass_gate prov) facts.gates;
      pending_blocked = keep (λ p. not (is_pending o.gate p)) facts.pending_blocked;
    }
    else if text_eq o.conclusion (codes "FAIL") || text_eq o.conclusion (codes "UNMET")
    then record {
      gates = update_gate o.gate (fail_gate streak) facts.gates;
      pending_blocked =
          if leb block_proposal_streak streak && not (any (is_pending o.gate) facts.pending_blocked)
          then facts.pending_blocked
            ++ record { gate = o.gate; streak = streak; evidence = prov } ∷ []
          else facts.pending_blocked;
    }
    else facts

-- A result for a gate that is not listed is passed over.
unfoldable pub on_gate : Text → Facts → Outcome → Option RubricGate → Facts
on_gate prov facts o none = facts
on_gate prov facts o (some g) = transition prov facts g o

unfoldable pub apply_outcome : Text → Text → Facts → Outcome → Facts
apply_outcome run_id revision facts o =
    on_gate (provenance run_id revision o) facts o (find_gate o.gate facts.gates)

-- `apply_harvest`, over the results of the harvest
unfoldable pub apply_harvest : Text → Text → Facts → List Outcome → Facts
apply_harvest run_id revision facts [] = facts
apply_harvest run_id revision facts (o ∷ os) =
    apply_harvest run_id revision (apply_outcome run_id revision facts o) os
