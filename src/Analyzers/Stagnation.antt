-- ===== src/Analyzers/Stagnation.antt =====
-- supervisor/analyzers/stagnation_detector.py: WorkspaceStagnationDetector. The state is the
-- object's fields; a method returns the new state. The thresholds are Python integers, here
-- natural numbers.
pub mod Ladder
mod Tests
use super_opencode.Base.{
  ℕ, ◌+◌, Bool, true, false, not, ◌&&◌, Option, none, some, List, [], ◌∷◌, ◌++◌, leb, ltb, ◌==◌,
  if◌then◌else◌, is_empty, Text, codes, text_eq, strip, show_nat,
}
use super_opencode.Analyzers.Turn.{LoopSignal, normalize_turn}

pub record StagnationSignal : Type 0 where
  pub stage : ℕ
  pub stagnant_turns : ℕ
  pub reason : Text

unfoldable pub as_loop_signal : StagnationSignal → LoopSignal
as_loop_signal s = record { reason = s.reason; marker = codes "stage-" ++ show_nat s.stage }

pub record Detector : Type 0 where
  pub nudge_after : ℕ
  pub strategy_after : ℕ
  pub escalate_after : ℕ
  pub last_worktree_sig : Text
  pub last_output_sig : Text
  pub stagnant_turns : ℕ
  pub highest_stage_fired : ℕ

-- `__init__`; `none` is the ValueError
unfoldable pub new : ℕ → ℕ → ℕ → Option Detector
new nudge strategy escalate =
    if ltb nudge strategy && ltb strategy escalate
    then some (record {
      nudge_after = nudge;
      strategy_after = strategy;
      escalate_after = escalate;
      last_worktree_sig = [];
      last_output_sig = [];
      stagnant_turns = 0;
      highest_stage_fired = 0;
    })
    else none

unfoldable pub reset : Detector → Detector
reset d = record d {
  stagnant_turns = 0;
  last_worktree_sig = [];
  last_output_sig = [];
  highest_stage_fired = 0;
}

-- the ladder of tests in `record`
unfoldable pub stage_at : Detector → ℕ → ℕ
stage_at d n =
    if leb d.escalate_after n
    then 3
    else if leb d.strategy_after n
    then 2
    else if leb d.nudge_after n
    then 1
    else 0

-- `reasons[stage]`; stage 0 is never looked up
unfoldable pub reason_for : ℕ → ℕ → Bool → Text
reason_for stage turns replayed =
    if stage == 1
    then codes "made no file changes for "
      ++ show_nat turns
      ++ codes " consecutive turns"
      ++ (if replayed
          then codes
              " The agent also produced a near-identical output — it is replaying the same turn without touching files."
          else [])
    else if stage == 2
    then codes "changed no files for "
      ++ show_nat turns
      ++ codes " consecutive turns — the current approach is not landing"
    else codes "produced no workspace change for "
      ++ show_nat turns
      ++ codes " consecutive turns — restarting with fixed context"

-- `record` from the line that counts the stagnant turn
count_turn : Detector → Bool → Detector × Option StagnationSignal
count_turn d replayed =
    let n = d.stagnant_turns + 1 in
    let stage = stage_at d n in
    let counted = record d { stagnant_turns = n } in
    if stage == 0
    then (counted, none)
    else if leb stage d.highest_stage_fired
    then (counted, none)
    else (
      record counted { highest_stage_fired = stage },
      some (record { stage = stage; stagnant_turns = n; reason = reason_for stage n replayed }),
    )

-- `changed` of `record`, for the stripped fingerprint
abbrev pub is_changed : Detector → Text → Bool
is_changed d sig = not (is_empty sig) && not (text_eq sig d.last_worktree_sig)

abbrev is_replayed : Detector → Bool → Text → Bool
is_replayed d changed out = not changed && not (is_empty out) && text_eq out d.last_output_sig

unfoldable pub record_turn : Detector → Text → Text → Detector × Option StagnationSignal
unfolding count_turn stage_at
record_turn d worktree_sig output_sig =
    let sig = strip worktree_sig in
    let out = normalize_turn output_sig in
    let changed = is_changed d sig in
    let replayed = is_replayed d changed out in
    let d' = record d { last_worktree_sig = sig; last_output_sig = out } in
    if changed
    then (record d' { stagnant_turns = 0; highest_stage_fired = 0 }, none)
    else if is_empty sig
    then (d', none)
    else count_turn d' replayed
