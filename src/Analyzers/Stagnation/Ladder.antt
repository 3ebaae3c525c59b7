-- ===== src/Analyzers/Stagnation/Ladder.antt =====
-- supervisor/analyzers/stagnation_detector.py: when the stages of the nudge ladder fire.
use super_opencode.Base.{
  ℕ, zero, suc, ◌+◌, ◌<◌, ◌≡◌, ◌≢◌, refl, ap, ap₂, ◌∙◌, false, Option, none, some, List, [], ◌∷◌,
  map, arith, ◌==◌, if◌then◌else◌, length, Text, text_eq_refl, strip,
}
use super_opencode.Analyzers.Stagnation.{
  StagnationSignal, Detector, new, stage_at, is_changed, record_turn,
}

pub record IsWellFormed (d : Detector) : Type 0 where
  pub nudge_pos : 0 < d.nudge_after
  pub nudge_lt : d.nudge_after < d.strategy_after
  pub strategy_lt : d.strategy_after < d.escalate_after
  pub fired : d.highest_stage_fired ≡ stage_at d d.stagnant_turns

-- The stage that is due when the count of stagnant turns reaches `n`.
abbrev pub due : Detector → ℕ → Option ℕ
due d n =
    if n == d.nudge_after
    then some 1
    else if n == d.strategy_after
    then some 2
    else if n == d.escalate_after
    then some 3
    else none

abbrev pub stage_of : Option StagnationSignal → Option ℕ
stage_of none = none
stage_of (some s) = some s.stage

pub new-IsWellFormed : (n s e : ℕ) (d : Detector) → 0 < n → new n s e ≡ some d → IsWellFormed d
unfolding new stage_at
new-IsWellFormed n s e d pos h = ground arith

-- Every turn, whatever its fingerprint and its output, keeps a detector well formed: its thresholds are
-- in order and positive, and its highest stage is that of its count.
pub record_turn-IsWellFormed :
    (d : Detector) (w o : Text) → IsWellFormed d → IsWellFormed (record_turn d w o).0
unfolding record_turn
record_turn-IsWellFormed d w o h = ground arith

-- On a well-formed detector, a turn whose non-blank fingerprint is that of the turn before counts
-- as one more stagnant turn, and raises the stage of the threshold that the count reaches exactly,
-- and no signal at any other count.
pub record_turn-due :
    (d : Detector) (w o : Text)
    → IsWellFormed d
    → strip w ≢ []
    → is_changed d (strip w) ≡ false
    → ((record_turn d w o).0.stagnant_turns ≡ d.stagnant_turns + 1)
      × (stage_of (record_turn d w o).1 ≡ due d (d.stagnant_turns + 1))
unfolding record_turn
record_turn-due d w o h filled same = ground arith

-- The stages raised by a run of turns, with the state threaded through.
pub stages_of_run : Detector → List (Text × Text) → List (Option ℕ)
stages_of_run d [] = []
stages_of_run d ((w, o) ∷ ts) =
    let (d', signal) = record_turn d w o in stage_of signal ∷ stages_of_run d' ts

-- The stages due at the counts `n + 1`, …, `n + k`.
unfoldable pub due_after : Detector → ℕ → ℕ → List (Option ℕ)
due_after d n zero = []
due_after d n (suc k) = due d (n + 1) ∷ due_after d (n + 1) k

-- A stagnant turn keeps the thresholds and the fingerprint.
record_turn-keeps :
    (d : Detector) (w o : Text)
    → is_changed d (strip w) ≡ false
    → let d' = (record_turn d w o).0 in
      (d'.nudge_after ≡ d.nudge_after)
      × (d'.strategy_after ≡ d.strategy_after)
      × (d'.escalate_after ≡ d.escalate_after)
      × (d'.last_worktree_sig ≡ strip w)
unfolding record_turn
record_turn-keeps d w o same = ground arith

due_after-cong :
    (d e : Detector) (n k : ℕ)
    → d.nudge_after ≡ e.nudge_after
    → d.strategy_after ≡ e.strategy_after
    → d.escalate_after ≡ e.escalate_after
    → due_after d n k ≡ due_after e n k
unfolding due_after
due_after-cong d e n zero p q r = refl
due_after-cong d e n (suc k) p q r = ground (arith, due_after-cong d e (n + 1) k p q r)

not_changed :
    (d : Detector) (w : Text) → d.last_worktree_sig ≡ strip w → is_changed d (strip w) ≡ false
not_changed d w e = rw (e, text_eq_refl) (ground arith)

-- Over a streak of turns with one and the same non-blank fingerprint, on a well-formed detector
-- that has already seen this fingerprint, the stages raised are exactly those due at the successive
-- counts: each of the three stages once, at its threshold, whatever the agent's outputs are.
pub stages_of_streak :
    (d : Detector) (w : Text) (outputs : List Text)
    → IsWellFormed d
    → strip w ≢ []
    → d.last_worktree_sig ≡ strip w
    → stages_of_run d (map (λ o. (w, o)) outputs) ≡ due_after d d.stagnant_turns (length outputs)
unfolding stages_of_run due_after
stages_of_streak d w [] wf filled seen = refl
stages_of_streak d w (o ∷ os) wf filled seen =
    let same = not_changed d w seen in
    let d' = (record_turn d w o).0 in
    let kept = record_turn-keeps d w o same in
    let step = record_turn-due d w o wf filled same in
    let rest = stages_of_streak d' w os (record_turn-IsWellFormed d w o wf) filled kept.3 in
    let moved = due_after-cong d' d (d.stagnant_turns + 1) (length os) kept.0 kept.1 kept.2 in
    ap₂ ◌∷◌ step.1 (rest ∙ ap (λ n. due_after d' n (length os)) step.0 ∙ moved)
