-- ===== src/Protocols/Harvest/Tests.antt =====
-- A harvest on concrete gates.
use super_opencode.Base.{◌≡◌, ◌⊎◌, Text, refl, [], ◌∷◌, codes, text_eq, map}
use super_opencode.Protocols.Harvest.{
  RubricGate, Proposal, Outcome, Facts, find_gate, update_gate, transition, on_gate, apply_outcome,
  apply_harvest,
}
use super_opencode.Protocols.Harvest.Guarded.{IsGuarded}
use super_opencode.Protocols.Harvest.Earned.{IsCounted, in_a_row}
use super_opencode.Protocols.Harvest.Proposed.{IsListed, IsEarned, harvest_counts_failures}

abbrev latency : RubricGate
latency = record { name = codes "latency"; status = codes "open"; evidence = []; fail_streak = 2 }

abbrev facts : Facts
facts = record {
  gates = latency ∷ record latency { name = codes "tests"; status = codes "blocked" } ∷ [];
  pending_blocked = [];
}

abbrev failure : Outcome
failure = record {
  gate = codes "latency";
  conclusion = codes "FAIL";
  fact = codes "p99=31";
  source = codes "bench.json";
}

harvest_counts_failures_example :
    let os = failure ∷ failure ∷ [] in
    let after = apply_harvest (codes "7") (codes "a1") facts os in
    IsGuarded facts after
    × ((name : Text)
        → IsCounted (in_a_row name os) (find_gate name facts.gates) (find_gate name after.gates))
    × ((p : Proposal)
        → IsListed p after.pending_blocked
        → IsListed p facts.pending_blocked ⊎ IsEarned facts os p)
harvest_counts_failures_example =
    harvest_counts_failures (codes "7") (codes "a1") facts (failure ∷ failure ∷ [])

third_failure :
    map
      (λ (p : Proposal). p.streak)
      (apply_harvest (codes "7") (codes "a1") facts (failure ∷ failure ∷ [])).pending_blocked
    ≡ 3 ∷ []
unfolding apply_harvest apply_outcome on_gate transition find_gate update_gate text_eq
third_failure = refl
