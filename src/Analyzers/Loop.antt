-- ===== src/Analyzers/Loop.antt =====
-- supervisor/analyzers/loop_detector.py: LoopDetector. The state is the object's fields; the set
-- `_streak_keys` is a list without repeats.
pub mod Once
pub mod Repeats
pub mod Explore
mod Tests
use super_opencode.Base.{
  ℕ, zero, suc, ◌+◌, ◌*◌, ◌%◌, Bool, true, false, not, ◌&&◌, Option, none, some, List, [], ◌∷◌,
  ◌++◌, leb, ltb, if◌then◌else◌, length, take, from_end, get_or, pop_over, Text, codes, lower,
  strip, join, text_eq, mem_text,
}
use super_opencode.Analyzers.Turn.{LoopSignal}

pub record Detector : Type 0 where
  pub max_consecutive : ℕ
  pub max_cycle_repeats : ℕ
  pub max_tools_without_text : ℕ
  pub window : ℕ
  pub recent : List Text
  pub last : Option Text
  pub consecutive : ℕ
  pub tools_since_text : ℕ
  pub streak_keys : List Text
  pub fired : Bool

unfoldable pub new : ℕ → ℕ → ℕ → ℕ → Detector
new consecutive cycles tools window = record {
  max_consecutive = consecutive;
  max_cycle_repeats = cycles;
  max_tools_without_text = tools;
  window = window;
  recent = [];
  last = none;
  consecutive = 0;
  tools_since_text = 0;
  streak_keys = [];
  fired = false;
}

-- A prose event.
unfoldable pub record_text : Detector → Detector
record_text d = record d { tools_since_text = 0; streak_keys = [] }

-- `set.add`
unfoldable pub add_key : Text → List Text → List Text
add_key k ks = if mem_text k ks then ks else ks ++ k ∷ []

-- `all(window[i] == pattern[i % period] for i in range(need))`
unfoldable pub follows : List Text → List Text → ℕ → ℕ → Bool
follows window pattern period zero = true
follows window pattern period (suc i) =
    text_eq (get_or window i []) (get_or pattern (i % period) []) && follows window pattern period i

-- `len(set(pattern)) <= 1`
unfoldable pub is_constant : List Text → Bool
is_constant [] = true
is_constant (k ∷ []) = true
is_constant (k ∷ j ∷ ks) = text_eq k j && is_constant (j ∷ ks)

-- One round of the loop of `_detect_cycle`: the pattern, if this period repeats.
unfoldable pub cycle_at : Detector → ℕ → Option (List Text)
cycle_at d period =
    let need = period * d.max_cycle_repeats in
    let window = from_end need d.recent in
    let pattern = take period window in
    if ltb (length d.recent) need
    then none
    else if is_constant pattern
    then none
    else if follows window pattern period need
    then some pattern
    else none

abbrev pub or_else {ℓ} : {A : Type ℓ} → Option A → Option A → Option A
or_else none o = o
or_else (some a) o = some a

-- `_detect_cycle`: the periods 2, 3 and 4 in turn
unfoldable pub detect_cycle : Detector → Option (List Text)
detect_cycle d = or_else (cycle_at d 2) (or_else (cycle_at d 3) (cycle_at d 4))

fire : Detector → Text → Text → Detector × Option LoopSignal
fire d reason marker =
    (record d { fired = true }, some (record { reason = reason; marker = marker }))

abbrev pub same_as : Option Text → Text → Bool
same_as none k = false
same_as (some j) k = text_eq k j

-- `record_tool` up to the first test: the counters with the new call
unfoldable pub note_call : Detector → Text → Detector
note_call d key = record d {
  tools_since_text = d.tools_since_text + 1;
  streak_keys = add_key key d.streak_keys;
  consecutive = if same_as d.last key then d.consecutive + 1 else 1;
  last = some key;
  recent = pop_over d.window (d.recent ++ key ∷ []);
}

-- `record_tool` after the counters are updated
unfoldable pub judge_call : Detector → Text → Detector × Option LoopSignal
unfolding fire
judge_call d marker =
    if leb d.max_consecutive d.consecutive
    then fire d (codes "repeated the same tool call") marker
    else elim (detect_cycle d) [
      | some pattern ↦
          fire d (codes "cycled between the same tool calls") (join (codes " -> ") pattern)
      | none ↦
          if leb d.max_tools_without_text d.tools_since_text
            && ltb (2 * length d.streak_keys) d.tools_since_text
          then fire d (codes "ran many tools without producing any output") marker
          else (d, none)
    ]

abbrev pub key_of : Text → Text
key_of marker = lower (strip marker)

unfoldable pub record_tool : Detector → Text → Detector × Option LoopSignal
record_tool d marker =
    if d.fired then (d, none) else judge_call (note_call d (key_of marker)) marker
