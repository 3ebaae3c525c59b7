-- ===== src/Protocols/Feasibility.antt =====
-- supervisor/protocols/feasibility_gate.py: the assessment of a facts file and its rendering.
pub mod Verdict
mod Tests
use super_opencode.Base.{
  ℕ, ◌+◌, ◌-◌, Bool, true, false, not, ◌&&◌, ◌||◌, Option, none, some, List, [], ◌∷◌, ◌++◌, map,
  keep, count_if, leb, ltb, if◌then◌else◌, is_empty, length, take, Text, codes, strip, rstrip,
  show_nat, split_words, join, text_eq, ◌==◌,
}
use super_opencode.Protocols.Gates.{
  Scalar, str, text_of, text_or, as_int, Status, is_open, passing, blocked, status_text, Check,
  Gate, Entry, parse_gates,
}

-- `known_ceiling` of the older schema
pub record Ceiling : Type 0 where
  pub count : Option Scalar
  pub total : Option Scalar  -- the key `of`
  pub blocked_gates : Option (List Scalar)
  pub evidence : Option Scalar
  pub notes : Option Scalar

-- The keys of a facts object that the assessment reads. `gates` is `none` where it is no list, and
-- `known_ceiling` where it is no object.
pub record Facts : Type 0 where
  pub gates : Option (List (Option Entry))
  pub notes : Option Scalar
  pub required_gates : Option Scalar
  pub known_ceiling : Option Ceiling

pub record FeasibilityAssessment : Type 0 where
  pub required_gates : Option ℕ
  pub known_ceiling : Option ℕ
  pub blocked_gates : List Text
  pub evidence : Text
  pub notes : Text
  pub facts_source : Text
  pub reachable : Bool
  pub reason : Text
  pub gates : List Gate

abbrev pub is_blocked : Gate → Bool
is_blocked g = elim g.status [ blocked ↦ true | is_open ↦ false | passing ↦ false ]

abbrev pub is_passing : Gate → Bool
is_passing g = elim g.status [ passing ↦ true | is_open ↦ false | blocked ↦ false ]

-- No facts, or an empty object.
no_facts : Text → FeasibilityAssessment
no_facts source = record {
  required_gates = none;
  known_ceiling = none;
  blocked_gates = [];
  evidence = [];
  notes = [];
  facts_source = source;
  reachable = true;
  reason = codes "No feasibility facts recorded.";
  gates = [];
}

abbrev names_of : List Gate → List Text
names_of = map (λ g. g.name)

gates_reason : ℕ → List Text → ℕ → Text
gates_reason required names passed =
    if not (is_empty names)
    then show_nat (length names)
      ++ (codes " of "
          ++ (show_nat required
              ++ (codes " gate(s) never passed ("
                  ++ (join (codes ", ") names
                      ++ codes
                          "); the done condition cannot be met under the current constraints."))))
    else if not (passed == 0)
    then show_nat passed
      ++ (codes " of "
          ++ (show_nat required
              ++ (codes " gate(s) passed in earlier attempts; "
                  ++ (show_nat (required - passed) ++ codes " untested, none blocked."))))
    else codes "All " ++ (show_nat required ++ codes " gate(s) untested; none known-blocked.")

-- The branch for a facts file with gates.
unfoldable pub assess_gates : Text → Option Scalar → List Gate → FeasibilityAssessment
unfolding gates_reason
assess_gates source notes gates =
    let required = length gates in
    let stuck = keep is_blocked gates in
    let names = names_of stuck in
    record {
      required_gates = some required;
      known_ceiling = some (required - length names);
      blocked_gates = names;
      evidence =
          join (codes "; ")
            (map (λ g. g.evidence) (keep (λ g. is_blocked g && not (is_empty g.evidence)) gates));
      notes = text_or [] notes;
      facts_source = source;
      reachable = is_empty names;
      reason = gates_reason required names (count_if is_passing gates);
      gates = gates;
    }

-- `ceiling` of the older schema: the count, but never more than the total
abbrev pub ceiling_of : Ceiling → Option ℕ
ceiling_of c = elim (as_int c.count) [
  | none ↦ none
  | some n ↦ elim (as_int c.total) [ none ↦ some n | some m ↦ some (if leb m n then m else n) ]
]

abbrev ceiling_blocked : Ceiling → List Text
ceiling_blocked c = elim c.blocked_gates [
  | none ↦ []
  | some gs ↦ keep (λ t. not (is_empty (strip t))) (map text_of gs)
]

-- `required is None or ceiling is None or ceiling >= required`
abbrev pub is_reachable : Option ℕ → Option ℕ → Bool
is_reachable none ceiling = true
is_reachable (some r) none = true
is_reachable (some r) (some c) = leb r c

legacy_reason : Option ℕ → Option ℕ → Text
legacy_reason none none = codes "No known ceiling recorded against the required gate count."
legacy_reason (some r) none = codes "No known ceiling recorded against the required gate count."
legacy_reason none (some c) = codes "Known ceiling recorded at " ++ (show_nat c ++ codes " gates.")
legacy_reason (some r) (some c) =
    if ltb c r
    then codes "Known ceiling "
      ++ (show_nat c
          ++ (codes " < required "
              ++ (show_nat r
                  ++ codes
                      " gate(s); the done condition cannot be met under the current constraints.")))
    else codes "Known ceiling "
      ++ (show_nat c
          ++ (codes "/"
              ++ (show_nat r
                  ++ (codes "; requiring all "
                      ++ (show_nat r
                          ++ codes
                              " gates is still nominal; treat the ceiling as prior evidence.")))))

-- The branch for a facts file with counts.
unfoldable pub assess_counts : Text → Facts → FeasibilityAssessment
unfolding legacy_reason
assess_counts source f =
    let required = as_int f.required_gates in
    let ceiling : Option ℕ = elim f.known_ceiling [ none ↦ none | some c ↦ ceiling_of c ] in
    let stuck : List Text = elim f.known_ceiling [ none ↦ [] | some c ↦ ceiling_blocked c ] in
    let evidence : Text = elim f.known_ceiling [ none ↦ [] | some c ↦ text_or [] c.evidence ] in
    let notes : Text = elim f.known_ceiling [ none ↦ [] | some c ↦ text_or [] c.notes ] in
    record {
      required_gates = required;
      known_ceiling = ceiling;
      blocked_gates = stuck;
      evidence = evidence;
      notes = notes;
      facts_source = source;
      reachable = is_reachable required ceiling;
      reason = legacy_reason required ceiling;
      gates = [];
    }

unfoldable pub assess_facts : Text → Facts → List Gate → FeasibilityAssessment
assess_facts source f [] = assess_counts source f
assess_facts source f (g ∷ gs) = assess_gates source f.notes (g ∷ gs)

unfoldable pub check_feasibility : Text → Option Facts → FeasibilityAssessment
unfolding no_facts assess_facts
check_feasibility source none = no_facts source
check_feasibility source (some f) = assess_facts source f (parse_gates f.gates)

-- `_compact` and `_bounded`
unfoldable pub compact : Text → Text
compact text = join (codes " ") (split_words text)

unfoldable pub bounded : Text → ℕ → Text
bounded text cap =
    let t = rstrip text in if leb (length t) cap then t else rstrip (take cap t) ++ codes " ..."

abbrev line_if : Bool → Text → List Text
line_if true t = t ∷ []
line_if false t = []

abbrev number_line : Text → Option ℕ → List Text
number_line label none = []
number_line label (some n) = (label ++ show_nat n) ∷ []

gate_marker : Status → Text
gate_marker blocked = codes "✗"
gate_marker passing = codes "✓"
gate_marker is_open = codes "?"

-- a truthy `kind` of a check; the texts of kinds are not blank
check_kind : Option Check → Text
check_kind none = []
check_kind (some []) = []
check_kind (some ((k, v) ∷ c)) = if text_eq k (codes "kind") then text_of v else check_kind (some c)

gate_line : Gate → Text
unfolding gate_marker check_kind compact
gate_line g =
    let ref : Text = elim g.ref [
      | none ↦ []
      | some n ↦ if n == 0 then [] else codes " #" ++ show_nat n
    ] in
    let kind = check_kind g.check in
    codes "- gate "
    ++ (g.name
        ++ (ref
            ++ (codes " ["
                ++ (gate_marker g.status
                    ++ (codes " "
                        ++ (status_text g.status
                            ++ (codes "]"
                                ++ ((if is_empty kind
                                      then []
                                      else codes " {" ++ (kind ++ codes " checked}"))
                                    ++ ((if is_empty g.definition
                                          then []
                                          else codes ": " ++ compact g.definition)
                                        ++ (if is_empty g.evidence
                                            then []
                                            else codes " — " ++ compact g.evidence))))))))))

-- `FeasibilityAssessment.render`
unfoldable pub render : FeasibilityAssessment → ℕ → Text
unfolding gate_line compact
render a max_chars =
    bounded
      (join (codes "\n") (
        codes "## FEASIBILITY GATE"
        ∷ (number_line (codes "- required_gates: ") a.required_gates
            ++ (number_line (codes "- known_ceiling: ") a.known_ceiling
                ++ (line_if (not (is_empty a.blocked_gates))
                      (codes "- blocked_gates: " ++ join (codes ", ") a.blocked_gates)
                    ++ (line_if (not (is_empty a.evidence))
                          (codes "- evidence: " ++ compact a.evidence)
                        ++ (line_if (not (is_empty a.notes)) (codes "- notes: " ++ compact a.notes)
                            ++ (map gate_line a.gates
                                ++ ((codes "- reachable: "
                                      ++ (if a.reachable then codes "yes" else codes "no"))
                                    ∷ (line_if (not (is_empty a.reason))
                                          (codes "- reason: " ++ compact a.reason)
                                        ++ line_if (not (is_empty a.facts_source)) (
                                            codes "- facts_source: "
                                            ++ compact a.facts_source)))))))))))
      max_chars
