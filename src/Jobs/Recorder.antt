-- ===== src/Jobs/Recorder.antt =====
-- services/jobs/event_recorder.py: the events of a job on their way to its log.
pub mod Headline
pub mod Milestones
pub mod Warnings
pub mod Blocks
pub mod Bounds
mod Tests
use super_opencode.Base.{
  ℕ, suc, ◌+◌, Bool, true, false, not, ◌&&◌, ◌||◌, Option, none, some, List, [], ◌∷◌, ◌++◌, map,
  leb, ltb, if◌then◌else◌, is_empty, length, drop, lower, Text, codes, text_eq, mem_text, strip,
  split_lines, show_nat,
}
use super_opencode.Jobs.Sidecar.{Sidecar, Body, Try, append_full}
use super_opencode.Jobs.Recorder.Headline.{
  shorten, headline_prompt, headline_output, headline_verdict, headline_suggestions,
}

-- BIG_BLOCK_LEVELS
abbrev pub big_block_levels : List Text
big_block_levels =
    codes "opencode_prompt"
    ∷ codes "opencode_output"
    ∷ codes "supervisor_response"
    ∷ codes "supervisor_suggestions"
    ∷ []

-- _WARN_MILESTONES and _WARN_TRACK_LIMIT
abbrev pub warn_milestones : List ℕ
warn_milestones = 2 ∷ 5 ∷ 10 ∷ 20 ∷ 50 ∷ 100 ∷ 200 ∷ 500 ∷ 1000 ∷ []

abbrev pub warn_track_limit : ℕ
warn_track_limit = 32

-- The keys of an event that the recorder reads or writes; a text that is missing is `none`.
pub record Event : Type 0 where
  pub level : Option Text
  pub msg : Option Text
  pub prompt_kind : Option Text
  pub digest : Option Text
  pub ref : Option ℕ
  pub detail_len : Option ℕ

pub record Warn : Type 0 where
  pub key : Text
  pub count : ℕ
  pub announced : ℕ

-- The recorder with the sidecar file of its job; the oldest tracked warning is the first one.
pub record Recorder : Type 0 where
  pub full_mode : Bool
  pub warn_counts : List Warn
  pub sidecar : Sidecar

-- `__init__`
unfoldable pub create : Text → Sidecar → Recorder
create mode s = record {
  full_mode = text_eq (lower (strip mode)) (codes "full");
  warn_counts = [];
  sidecar = s;
}

-- What `record` does: it returns an event or None, or passes on an error of the sidecar file.
pub data Recorded : Type 0 where
  kept : Event → Recorded
  dropped raised : Recorded

-- `event.get(key) or default`
unfoldable pub text_or : Text → Option Text → Text
text_or default none = default
text_or default (some t) = if is_empty t then default else t

unfoldable pub first_line : List Text → Text → Text
first_line [] msg = msg
first_line (l ∷ ls) msg = l

-- the key of a warning
unfoldable pub warn_key : Event → Text
warn_key e = let msg = text_or [] e.msg in first_line (split_lines msg) msg

unfoldable pub find_warn : Text → List Warn → Option Warn
find_warn key [] = none
find_warn key (w ∷ ws) = if text_eq w.key key then some w else find_warn key ws

-- the change of a tracked entry
unfoldable pub set_warn : Warn → List Warn → List Warn
set_warn new [] = []
set_warn new (w ∷ ws) = if text_eq w.key new.key then new ∷ ws else w ∷ set_warn new ws

unfoldable pub track : Text → List Warn → List Warn
track key ws =
    (if leb warn_track_limit (length ws) then drop 1 ws else ws)
    ++ record { key = key; count = 1; announced = 1 } ∷ []

unfoldable pub next_milestone : ℕ → ℕ → List ℕ → Option ℕ
next_milestone count announced [] = none
next_milestone count announced (m ∷ ms) =
    if leb m count && ltb announced m then some m else next_milestone count announced ms

abbrev pub empty_event : Event
empty_event = record {
  level = none;
  msg = none;
  prompt_kind = none;
  digest = none;
  ref = none;
  detail_len = none;
}

unfoldable pub repeated : Text → ℕ → Event
repeated key m = record empty_event {
  level = some (codes "warn");
  msg = some (codes "⚠ repeated warning ×" ++ show_nat m ++ codes ": " ++ shorten 120 key);
}

-- `_record_warn` on a tracked warning, whose count is raised first
unfoldable pub count_warn : Warn → Warn × Recorded
count_warn w =
    let count = suc w.count in
    if leb count w.announced
    then (record w { count = count }, dropped)
    else elim (next_milestone count w.announced warn_milestones) [
      | none ↦ (record w { count = count }, dropped)
      | some m ↦ (record w { count = count; announced = m }, kept (repeated w.key m))
    ]

unfoldable pub warn_by : Option Warn → Event → Recorder → Recorder × Recorded
warn_by none e r = (record r { warn_counts = track (warn_key e) r.warn_counts }, kept e)
warn_by (some w) e r =
    (record r { warn_counts = set_warn (count_warn w).0 r.warn_counts }, (count_warn w).1)

-- `_record_warn`
unfoldable pub record_warn : Event → Recorder → Recorder × Recorded
record_warn e r = warn_by (find_warn (warn_key e) r.warn_counts) e r

unfoldable pub headline : Event → Text → Text
headline e msg =
    let level = text_or [] e.level in
    if text_eq level (codes "opencode_prompt")
    then headline_prompt e.prompt_kind msg
    else if text_eq level (codes "opencode_output")
    then headline_output msg
    else if text_eq level (codes "supervisor_response")
    then headline_verdict e.digest msg
    else headline_suggestions msg

-- the event that stands for a large one
unfoldable pub digest_event : Event → Text → ℕ → Event
digest_event e msg ref = record e {
  msg = some (headline e msg ++ codes " — full text in event #" ++ show_nat ref);
  prompt_kind = none;
  digest = none;
  ref = some ref;
  detail_len = some (length msg);
}

unfoldable pub referred : Event → Text → Option ℕ → Recorded
referred e msg none = raised
referred e msg (some ref) = kept (digest_event e msg ref)

-- `_record_big_block`, with the length of a JSON line and the ends of the attempts to write it
unfoldable pub big_block_by :
    (ℕ → Body → ℕ) → List Try → Option Text → Event → Recorder → Recorder × Recorded
big_block_by width ends none e r = (r, kept e)
big_block_by width ends (some msg) e r =
    let (s, ref) =
      append_full width ends (record { level = text_or [] e.level; body = msg }) r.sidecar in
    if is_empty (strip msg) then (r, kept e) else (record r { sidecar = s }, referred e msg ref)

unfoldable pub record_big_block : (ℕ → Body → ℕ) → List Try → Event → Recorder → Recorder × Recorded
record_big_block width ends e r = big_block_by width ends e.msg e r

-- `record`, of an event that is a dictionary
unfoldable pub record_event : (ℕ → Body → ℕ) → List Try → Event → Recorder → Recorder × Recorded
record_event width ends e r =
    let level = text_or (codes "info") e.level in
    if r.full_mode
    then (r, kept e)
    else if text_eq level (codes "heartbeat")
    then (r, dropped)
    else if text_eq level (codes "error")
    then (r, kept (record e { ref = none; detail_len = none }))
    else if text_eq level (codes "warn")
    then record_warn e r
    else if mem_text level big_block_levels
    then record_big_block width ends e r
    else (r, kept e)
