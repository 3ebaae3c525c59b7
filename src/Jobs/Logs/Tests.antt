-- ===== src/Jobs/Logs/Tests.antt =====
-- A log file of three events.
use super_opencode.Base.{
  ◌≡◌, refl, true, Option, some, List, [], ◌∷◌, all, take_last, Text, codes, strip, render,
}
use super_opencode.Jobs.Logs.{get_logs, tail_logs}
use super_opencode.Jobs.Logs.Tail.{is_event, tail_logs_lem}

-- a parser that takes every line as it is
abbrev parse : Text → Option Text
parse l = some l

abbrev log : List Text
log = codes "a" ∷ codes "bc" ∷ codes "d" ∷ []

valid : all (is_event parse) log ≡ true
unfolding strip
valid = refl

tail_logs_lem_example :
    tail_logs parse 2 (render log) ≡ some (take_last 2 (get_logs parse (render log)))
tail_logs_lem_example = tail_logs_lem parse 2 log refl valid
