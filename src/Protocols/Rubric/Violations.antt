-- ===== src/Protocols/Rubric/Violations.antt =====
-- supervisor/protocols/gate_rubric.py: the checks of a verdict against the rubric. Paths are those of a
-- POSIX system.
use super_opencode.Base.{
  ℕ, ◌+◌, Bool, true, false, not, ◌&&◌, ◌||◌, List, [], ◌∷◌, ◌++◌, map, keep, any, leb, ◌==◌,
  if◌then◌else◌, is_empty, is_digit, is_lower, is_upper, is_space, take, length, reverse, strip,
  contains, join, Text, codes, text_eq,
}
use super_opencode.Protocols.Gates.{Gate}
use super_opencode.Protocols.Check.{Workspace, is_pass, GateEvaluation, measure_text, quoted}
use super_opencode.Protocols.Metric.{split_from}
use super_opencode.Decision.Service.{Claim}

-- the names that the verdict adjudicates: those of gates that a criterion's text contains
unfoldable pub is_claimed : List Gate → List Claim → Text → Bool
is_claimed gates claims name =
    any (λ (g : Gate). text_eq g.name name) gates
    && not (is_empty name)
    && any (λ (c : Claim). contains name c.name) claims

-- `claimed[name]`
unfoldable pub is_claimed_met : List Claim → Text → Bool
is_claimed_met claims name = any (λ (c : Claim). contains name c.name && c.met) claims

unfoldable pub is_unknown : List Gate → Claim → Bool
is_unknown gates c =
    not (is_empty (strip c.name)) && not (any (λ (g : Gate). contains g.name (strip c.name)) gates)

-- the starts of the criteria that name no gate
unfoldable pub unknown : List Gate → List Claim → List Text
unknown gates claims = map (λ (c : Claim). take 60 (strip c.name)) (keep (is_unknown gates) claims)

-- the characters of a path, and those that stand before and behind one
abbrev pub is_letter : ℕ → Bool
is_letter c = is_lower c || is_upper c

unfoldable pub is_path_char : ℕ → Bool
is_path_char c = is_letter c || is_digit c || c == 95 || c == 46 || c == 47 || c == 92 || c == 45

unfoldable pub is_opening : ℕ → Bool
is_opening c = is_space c || c == 40 || c == 39 || c == 34 || c == 91 || c == 96

unfoldable pub is_closing_mark : ℕ → Bool
is_closing_mark c = is_space c || c == 41 || c == 39 || c == 34 || c == 93 || c == 44 || c == 59

-- The end of a path, read backwards: an extension of two letters or digits at least, the first one a
-- letter, behind a dot that something stands before. `last` is the character read before.
unfoldable pub has_extension : ℕ → ℕ → Text → Bool
has_extension n last [] = false
has_extension n last (c ∷ s) =
    let more = has_extension (n + 1) c s in
    if c == 46
    then leb 2 n && is_letter last && not (is_empty s)
    else (is_letter c || is_digit c) && more

-- The paths that a text cites: `run` is the run of path characters being read, reversed, and `opened`
-- whether a path may begin where it began.
unfoldable pub paths_from : Bool → Text → Text → List Text
paths_from opened run [] = if opened && has_extension 0 0 run then reverse run ∷ [] else []
paths_from opened run (c ∷ s) =
    let longer = paths_from opened (c ∷ run) s in
    let rest = paths_from (is_opening c) [] s in
    if is_path_char c
    then longer
    else if opened && is_closing_mark c && has_extension 0 0 run
    then reverse run ∷ rest
    else rest

unfoldable pub cited_paths : Text → List Text
cited_paths text = paths_from true [] text

-- `len(PurePath(token).parts)`
unfoldable pub count_parts : Text → ℕ
count_parts [] = 0
count_parts (c ∷ s) =
    let parts =
      keep (λ p. not (is_empty p) && not (text_eq p (codes "."))) (split_from 47 [] (c ∷ s)) in
    (if c == 47 then 1 else 0) + length parts

-- `_path_exists`
unfoldable pub path_exists : Workspace → Text → Bool
path_exists ws token = if leb (count_parts token) 1 then true else ws.exists token

unfoldable pub first_missing : Workspace → List Text → List Text
first_missing ws [] = []
first_missing ws (t ∷ ts) =
    if path_exists ws t
    then first_missing ws ts
    else (codes "evidence cites a missing file: " ++ quoted t) ∷ []

unfoldable pub missing_files : Workspace → List Claim → List Text
missing_files ws [] = []
missing_files ws (c ∷ cs) =
    let rest = missing_files ws cs in
    if c.met then first_missing ws (cited_paths c.evidence) ++ rest else rest

abbrev pub is_contradicted : List Gate → List Claim → GateEvaluation → Bool
is_contradicted gates claims e =
    is_claimed gates claims e.name && is_claimed_met claims e.name && not (is_pass e.outcome)

unfoldable pub contradiction : GateEvaluation → Text
contradiction e =
    codes "gate "
    ++ e.name
    ++ codes " claimed PASS but measured "
    ++ measure_text e.outcome
    ++ codes " ("
    ++ e.fact
    ++ codes ")"

unfoldable pub not_adjudicated : List Gate → List Claim → List GateEvaluation → List Text
not_adjudicated gates claims evs =
    map (λ (e : GateEvaluation). e.name)
      (keep (λ (e : GateEvaluation). not (is_claimed gates claims e.name)) evs)

abbrev pub fabricated : Text
fabricated = codes "fabricated gate(s) outside the rubric: "

abbrev pub unadjudicated : Text
unadjudicated = codes "machine-determined gate(s) not adjudicated: "

-- a heading with what it is about, where there is something
abbrev pub heading : Text → Text → List Text → List Text
heading title sep ts = if is_empty ts then [] else (title ++ join sep ts) ∷ []

-- `verdict_violations`, with a workspace
unfoldable pub verdict_violations :
    Workspace → List Claim → List Gate → List GateEvaluation → List Text
verdict_violations ws claims gates evs =
    if is_empty gates
    then []
    else heading fabricated (codes "; ") (take 3 (unknown gates claims))
      ++ missing_files ws claims
      ++ map contradiction (keep (is_contradicted gates claims) evs)
      ++ heading unadjudicated (codes ", ") (not_adjudicated gates claims evs)
