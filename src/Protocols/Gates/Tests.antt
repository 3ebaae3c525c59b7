-- ===== src/Protocols/Gates/Tests.antt =====
-- Gates of a concrete facts file.
use super_opencode.Base.{◌≡◌, refl, none, some, Option, List, [], ◌∷◌, Text, codes, strip, text_eq}
use super_opencode.Protocols.Gates.{str, Entry, parse_gates, read_status, blocked, as_int}
use super_opencode.Protocols.Gates.Names.{HasValidNames, parse_gates-HasValidNames}

abbrev entry : Text → Text → Entry
entry name status = record {
  name = some (str name);
  definition = none;
  status = some (str status);
  evidence = none;
  ref = none;
  check = none;
}

abbrev entries : List (Option Entry)
entries =
    some (entry (codes "Speed") (codes "BLOCKED "))
    ∷ none
    ∷ some (entry (codes " speed") (codes "open"))
    ∷ some (entry (codes " ") (codes "open"))
    ∷ []

parse_gates-HasValidNames_example : HasValidNames (parse_gates (some entries))
parse_gates-HasValidNames_example = parse_gates-HasValidNames (some entries)

status_normalised : read_status (codes "blocked") ≡ blocked
unfolding read_status text_eq
status_normalised = refl

ref_of_text : as_int (some (str (codes " 12 "))) ≡ some 12
unfolding as_int strip
ref_of_text = refl
