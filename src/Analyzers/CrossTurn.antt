-- ===== src/Analyzers/CrossTurn.antt =====
-- supervisor/analyzers/loop_detector.py: CrossTurnLoopDetector.
pub mod Recurrence
mod Tests
use super_opencode.Base.{
  ℕ, Bool, ◌&&◌, Option, none, some, List, [], ◌∷◌, ◌++◌, leb, if◌then◌else◌, length, pop_over,
  count_if, Text, codes, text_eq,
}
use super_opencode.Analyzers.Turn.{LoopSignal, normalize_turn, short}

pub record Detector : Type 0 where
  pub max_repeats : ℕ
  pub window : ℕ
  pub min_len : ℕ
  pub outputs : List Text
  pub feedbacks : List Text

unfoldable pub new : ℕ → ℕ → ℕ → Detector
new repeats window min_len = record {
  max_repeats = repeats;
  window = window;
  min_len = min_len;
  outputs = [];
  feedbacks = [];
}

-- `append`, then `pop(0)` beyond the window, for a signature that is long enough
abbrev pub remember : Detector → Text → List Text → List Text
remember d sig sigs =
    if leb d.min_len (length sig) then pop_over d.window (sigs ++ sig ∷ []) else sigs

-- `sigs.count(sig) >= max_repeats`, for a signature that is long enough
abbrev pub recurs : Detector → Text → List Text → Bool
recurs d sig sigs = leb d.min_len (length sig) && leb d.max_repeats (count_if (text_eq sig) sigs)

fire : Detector → Text → Text → Detector × Option LoopSignal
fire d reason text = (
  record d { outputs = []; feedbacks = [] },
  some (record { reason = reason; marker = short 80 text }),
)

-- `record`, from the two signatures on
unfoldable pub judge_turn : Detector → Text → Text → Text → Text → Detector × Option LoopSignal
unfolding fire
judge_turn d sig_o sig_f output feedback =
    let outs = remember d sig_o d.outputs in
    let backs = remember d sig_f d.feedbacks in
    let d' = record d { outputs = outs; feedbacks = backs } in
    if recurs d sig_o outs
    then fire d' (codes "kept producing the same result across turns") output
    else if recurs d sig_f backs
    then fire d' (codes "kept getting the same feedback across turns") feedback
    else (d', none)

unfoldable pub record_turn : Detector → Text → Text → Detector × Option LoopSignal
record_turn d output feedback =
    judge_turn d (normalize_turn output) (normalize_turn feedback) output feedback
