-- ===== src/Goal/Progress/Tests.antt =====
-- Goal progress on concrete verdicts.
use super_opencode.Base.{
  ◌+◌, ◌≡◌, ◌≢◌, ◌<◌, ◌⊎◌, refl, true, false, none, some, List, [], ◌∷◌, codes, strip, text_eq,
  mem_text,
}
use super_opencode.Goal.Criterion.{criterion_tokens, criterion_number, overlap}
use super_opencode.Goal.Progress.{
  Item, plain, judged, Tracker, Obligation, satisfied, record_turn, iter_criteria, rose, absorb_all,
  absorb_obligations, absorb, match_obligation, match_number, attain, record_pairs,
}
use super_opencode.Goal.Progress.Attainment.{known_part, progress_is_attainment}

abbrev latency : Obligation
latency = record { number = codes "4"; tokens = codes "latency" ∷ codes "tier" ∷ []; met = false }

abbrev tracker : Tracker
tracker = record {
  match_threshold = 50;
  obligations = latency ∷ [];
  best_gates = some 3;
  streak = 7;
  last_detail = [];
}

abbrev met_tracker : Tracker
met_tracker = record tracker { obligations = record latency { met = true } ∷ [] }

abbrev verdict : List Item
verdict = judged (codes "Target 4 (tier `latency`)") true ∷ plain (codes " ") ∷ []

known : tracker.obligations ≢ []
known e = cc

met_known : met_tracker.obligations ≢ []
met_known e = cc

verdict-ne_nil : iter_criteria verdict ≢ []
unfolding iter_criteria strip
verdict-ne_nil e = cc

progress_is_attainment_example :
    let (t', s) = record_turn tracker verdict (some 3) in
    (s.progressed ≡ true
      → (satisfied tracker.obligations < satisfied (known_part tracker t'))
        ⊎ (rose (some 3) tracker.best_gates ≡ true))
    × (s.progressed ≡ true → t'.streak ≡ 0)
    × (s.progressed ≡ false
        → (known_part tracker t' ≡ tracker.obligations)
          × (rose (some 3) tracker.best_gates ≡ false)
          × (t'.streak ≡ tracker.streak + 1))
progress_is_attainment_example =
    progress_is_attainment tracker verdict (some 3) known verdict-ne_nil

tokens_of_target :
    criterion_tokens (codes "Target 4 (tier `latency`)") ≡ codes "tier" ∷ codes "latency" ∷ []
unfolding criterion_tokens mem_text text_eq
tokens_of_target = refl

number_of_target : criterion_number (codes "**T4**. reach the tier") ≡ codes "4"
unfolding criterion_number
number_of_target = refl

progressed : (record_turn tracker verdict none).1.progressed ≡ true
unfolding record_turn record_pairs absorb_obligations absorb_all absorb match_obligation
    match_number attain criterion_tokens criterion_number iter_criteria strip mem_text text_eq
    overlap
progressed = refl
