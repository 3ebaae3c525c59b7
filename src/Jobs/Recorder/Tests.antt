-- ===== src/Jobs/Recorder/Tests.antt =====
-- A recorder on a few events.
use super_opencode.Base.{
  ◌≡◌, ◌≤◌, ◌⊎◌, ◌+◌, arith, refl, ℕ, suc, true, false, some, none, is_some, List, [], ◌∷◌, codes,
  length, text_eq, mem_text, strip, is_empty,
}
use super_opencode.Jobs.Sidecar.{
  Body, Sidecar, Try, early, late, append_full, read_full, last_ref, seed_full_ref, highest,
  attempt, max_full_bytes,
}
use super_opencode.Jobs.Sidecar.Kept.{IsSeeded, append_all, cost}
use super_opencode.Jobs.Recorder.{
  Event, dropped, raised, big_block_levels, empty_event, text_or, warn_key, find_warn, record_event,
}
use super_opencode.Jobs.Recorder.Warnings.{
  Input, run, new, count_of, nth_warning, warnings_are_counted,
}
use super_opencode.Jobs.Recorder.Blocks.{
  body_of, IsDigest, IsUnwritten, block_is_readable, nothing_else_is_lost,
}

abbrev width : ℕ → Body → ℕ
width ref b = 60 + length b.body

abbrev empty : Sidecar
empty = record { files = record { full = []; torn = 0; backup = [] }; full_next_ref = none }

abbrev warning : Event
warning = record empty_event { level = some (codes "warn"); msg = some (codes "tokens") }

abbrev output : Event
output = record empty_event { level = some (codes "opencode_output"); msg = some (codes "done") }

abbrev seen : List Input
seen = record { event = warning; ends = [] } ∷ []

warned : text_or (codes "info") warning.level ≡ codes "warn"
unfolding text_or
warned = refl

warnings_are_counted_example :
    let r = run width seen (new empty) in
    let n = suc (count_of (warn_key warning) r) in
    ((record_event width [] warning r).1 ≡ nth_warning n warning)
    × (count_of (warn_key warning) (record_event width [] warning r).0 ≡ n)
warnings_are_counted_example = warnings_are_counted width seen warning [] empty warned

seeded : IsSeeded empty
unfolding IsSeeded last_ref
seeded = omega arith

big : mem_text (text_or (codes "info") output.level) big_block_levels ≡ true
unfolding mem_text text_or text_eq
big = refl

full : is_empty (strip (codes "done")) ≡ false
unfolding strip
full = refl

stored : (append_full width [] (body_of output (codes "done")) empty).1 ≡ some 1
unfolding append_full attempt last_ref seed_full_ref highest
stored = refl

room : cost width [] (append_full width [] (body_of output (codes "done")) empty).0 ≤ max_full_bytes
unfolding cost
room = omega arith

block_is_readable_example :
    let (r', result) = record_event width [] output (new empty) in
    IsDigest output (codes "done") 1 result
    × (read_full 1 (append_all width [] r'.sidecar) ≡ some (body_of output (codes "done")))
block_is_readable_example =
    block_is_readable width output (codes "done") [] [] (new empty) 1 seeded refl refl refl big refl
      full stored room

abbrev failing : List Try
failing = early ∷ late 5 ∷ early ∷ []

nothing_else_is_lost_example :
    ((record_event width failing output (new empty)).1 ≡ dropped
      → ((new empty).full_mode ≡ false)
        × ((text_eq (text_or (codes "info") output.level) (codes "heartbeat") ≡ true)
            ⊎ ((text_eq (text_or (codes "info") output.level) (codes "warn") ≡ true)
                × (is_some (find_warn (warn_key output) (new empty).warn_counts) ≡ true))))
    × ((record_event width failing output (new empty)).1 ≡ raised
        → ((new empty).full_mode ≡ false)
          × (mem_text (text_or (codes "info") output.level) big_block_levels ≡ true)
          × IsUnwritten width output.msg output failing (new empty))
nothing_else_is_lost_example = nothing_else_is_lost width output failing (new empty)
