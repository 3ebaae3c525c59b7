-- ===== src/Protocols/Feasibility/Tests.antt =====
-- Assessments of concrete facts files.
use super_opencode.Base.{
  ◌≡◌, ◌≢◌, ◌↔◌, refl, ap, arith, false, none, some, [], ◌∷◌, length, Text, codes, strip, mem_text,
  text_eq,
}
use super_opencode.Protocols.Gates.{str, num, Entry, parse_gates, gates_from, text_of}
use super_opencode.Protocols.Feasibility.{Facts, check_feasibility}
use super_opencode.Protocols.Feasibility.Verdict.{IsBelow, unreachable_iff_IsBelow}

abbrev entry : Text → Text → Entry
entry name status = record {
  name = some (str name);
  definition = none;
  status = some (str status);
  evidence = none;
  ref = none;
  check = none;
}

abbrev listed : Facts
listed = record {
  gates = some (
      some (entry (codes "speed") (codes "blocked"))
      ∷ some (entry (codes "size") (codes "passing"))
      ∷ []);
  notes = none;
  required_gates = none;
  known_ceiling = none;
}

abbrev counted : Facts
counted = record {
  gates = none;
  notes = none;
  required_gates = some (num 10);
  known_ceiling = some (record {
    count = some (num 8);
    total = some (num 10);
    blocked_gates = none;
    evidence = none;
    notes = none;
  });
}

abbrev source : Text
source = codes "feasibility_facts.json"

unreachable_iff_IsBelow_example :
    ((check_feasibility source (some counted)).reachable ≡ false)
    ↔ IsBelow (check_feasibility source (some counted))
unreachable_iff_IsBelow_example = unreachable_iff_IsBelow source (some counted)

two_gates : length (parse_gates listed.gates) ≡ 2
unfolding parse_gates gates_from strip mem_text text_eq text_of
two_gates = refl

has_gates : parse_gates listed.gates ≢ []
has_gates e = absurd (omega (arith, two_gates, ap length e))
