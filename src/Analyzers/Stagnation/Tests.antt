-- ===== src/Analyzers/Stagnation/Tests.antt =====
-- The stagnation detector on concrete turns.
use super_opencode.Base.{◌≡◌, ◌≢◌, refl, none, some, List, [], ◌∷◌, map, arith, Text, codes, strip}
use super_opencode.Analyzers.Turn.{normalize_turn}
use super_opencode.Analyzers.Stagnation.{Detector, stage_at}
use super_opencode.Analyzers.Stagnation.Ladder.{
  IsWellFormed, stages_of_run, due_after, stages_of_streak,
}

-- the defaults of `__init__`, after a turn with the fingerprint "abc"
abbrev seen : Detector
seen = record {
  nudge_after = 2;
  strategy_after = 3;
  escalate_after = 4;
  last_worktree_sig = codes "abc";
  last_output_sig = [];
  stagnant_turns = 0;
  highest_stage_fired = 0;
}

seen-IsWellFormed : IsWellFormed seen
unfolding stage_at
seen-IsWellFormed = ground arith

filled : strip (codes " abc ") ≢ []
unfolding strip
filled e = cc

abbrev outputs : List Text
outputs = codes "one" ∷ codes "two" ∷ codes "three" ∷ codes "four" ∷ codes "five" ∷ []

stages_of_streak_example :
    stages_of_run seen (map (λ o. (codes " abc ", o)) outputs) ≡ due_after seen 0 5
stages_of_streak_example =
    stages_of_streak seen (codes " abc ") outputs seen-IsWellFormed filled (unfold strip in refl)

streak : due_after seen 0 5 ≡ none ∷ some 1 ∷ some 2 ∷ some 3 ∷ none ∷ []
unfolding due_after
streak = refl

digits_masked : normalize_turn (codes " 3  failing, 42 OK ") ≡ codes "# failing, # ok"
unfolding normalize_turn
digits_masked = refl
