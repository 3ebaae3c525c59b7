-- ===== src/Protocols/Refs/Tests.antt =====
-- References on concrete gates.
use super_opencode.Base.{◌≡◌, refl, false, none, some, List, [], ◌∷◌, is_empty, codes}
use super_opencode.Protocols.Gates.{Gate, is_open}
use super_opencode.Protocols.Refs.{problems_from, validate_refs}

abbrev speed : Gate
speed = record {
  name = codes "speed";
  definition = [];
  status = is_open;
  evidence = [];
  ref = some 2;
  check = none;
}

abbrev gates : List Gate
gates = speed ∷ record speed { name = codes "tests"; ref = some 2 } ∷ []

doubled : is_empty (validate_refs gates (some 3)) ≡ false
unfolding validate_refs problems_from
doubled = refl
