-- ===== src/Jobs/Logs.antt =====
-- services/jobs/state_store.py: the log file of a job, of which append_log writes a line per event.
-- An event is any value that a parser finds in a line; the characters of the file are its bytes.
pub mod Tail
mod Tests
use super_opencode.Base.{
  file_lines, ℕ, zero, suc, ◌+◌, ◌-◌, ◌*◌, Bool, true, false, not, Option, none, some, List, [],
  ◌∷◌, ◌++◌, min, leb, ltb, ◌==◌, if◌then◌else◌, is_empty, length, drop, take_last, count_if, Text,
  strip, split_lines,
}

-- the first span, in bytes
abbrev pub chunk : ℕ
chunk = 65536

-- `f.seek(size - span)` and `f.read(span)`
abbrev pub read_span : ℕ → Text → Text
read_span span file = drop (length file - span) file

-- The loop that widens the span; `none` where the fuel runs out.
unfoldable pub widen : ℕ → ℕ → ℕ → Text → Option (Text × Bool)
widen zero max_events span file = none
widen (suc n) max_events span file =
    let raw = read_span span file in
    let wider = widen n max_events (min (length file) (span * 4)) file in
    if leb (length file) span
    then some (raw, true)
    else if ltb max_events (count_if (λ c. c == 10) raw)
    then some (raw, false)
    else wider

module _ {E : Type 0} (parse : Text → Option E) where
  -- The loop over the lines: blank lines and those without an event are skipped.
  unfoldable pub events : List Text → List E
  events [] = []
  events (l ∷ ls) =
      let rest = events ls in
      if is_empty (strip l) then rest else elim (parse l) [ none ↦ rest | some e ↦ e ∷ rest ]

  -- `get_logs`
  unfoldable pub get_logs : Text → List E
  get_logs file = events (file_lines file)

  -- The events of what is read; the first line of a partial read is a fragment.
  unfoldable pub tail_events : ℕ → Text × Bool → List E
  tail_events max_events (raw, full_read) =
      let lines = split_lines raw in
      take_last max_events (events (if full_read then lines else drop 1 lines))

  -- `tail_logs`, on fuel above the length of the file
  unfoldable pub tail_logs : ℕ → Text → Option (List E)
  tail_logs max_events file =
      if max_events == 0
      then some []
      else elim (widen (suc (length file)) max_events (min chunk (length file)) file) [
        | none ↦ none
        | some r ↦ some (tail_events max_events r)
      ]
