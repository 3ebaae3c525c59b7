-- ===== src/Skills.antt =====
-- supervisor/core/skill_bank.py: the bank of skills that the judge loads. A file is its stem and the
-- text that `safe_read_text` gives, in the sorted order of its directory; the log is left out.
pub mod Caps
pub mod Catalog
pub mod Discovered
pub mod Distinct
pub mod Evict
pub mod Hidden
pub mod Latest
pub mod Loop
pub mod Held
pub mod Queue
pub mod Reach
pub mod Render
mod Tests
use super_opencode.Base.{
  ℕ, zero, suc, ◌+◌, max, Bool, true, false, not, ◌&&◌, ◌||◌, Option, none, some, List, [], ◌∷◌,
  ◌++◌, reverse, length, take, drop, all, if◌then◌else◌, is_empty, is_digit, is_lower, keep, leb,
  ltb, ◌==◌, lower, mem_text, strip, split_lines, split_words, join, text_eq, Text, codes,
}
use super_opencode.Protocols.Metric.{partition}

pub record Skill : Type 0 where
  pub name : Text
  pub description : Text
  pub body : Text
  pub source : Text

-- The dictionaries `_skills` and `_resident` are lists in the order of insertion.
pub record Bank : Type 0 where
  pub body_budget : ℕ
  pub max_resident : ℕ
  pub max_total_chars : ℕ
  pub max_loads_per_turn : ℕ
  pub skills : List Skill
  pub resident : List Skill
  pub pending : List Text

pub record SkillFile : Type 0 where
  pub stem : Text
  pub raw : Text

pub record Directory : Type 0 where
  pub label : Text
  pub files : List SkillFile

abbrev pub description_max_chars : ℕ
description_max_chars = 200

abbrev pub description_fallback_chars : ℕ
description_fallback_chars = 120

-- `$` matches before a final line feed too
drop_final_newline : Text → Text
drop_final_newline [] = []
drop_final_newline (c ∷ s) =
    let rest = drop_final_newline s in if c == 10 && is_empty s then [] else c ∷ rest

abbrev is_name_char : ℕ → Bool
is_name_char c = is_lower c || is_digit c || c == 95 || c == 45

name_matches : Text → Bool
name_matches [] = false
name_matches (c ∷ s) = (is_lower c || is_digit c) && leb (length s) 63 && all is_name_char s

-- `_NAME_RE.match`
unfoldable pub is_valid_name : Text → Bool
unfolding drop_final_newline name_matches
is_valid_name name = name_matches (drop_final_newline name)

-- `text.split("\n\n")`, with the piece being read, reversed
paragraphs_from : Text → Text → List Text
paragraphs_from piece [] = reverse piece ∷ []
paragraphs_from piece (c ∷ []) = reverse (c ∷ piece) ∷ []
paragraphs_from piece (c ∷ d ∷ s) =
    let next = paragraphs_from (c ∷ piece) (d ∷ s) in
    let rest = paragraphs_from [] s in if c == 10 && d == 10 then reverse piece ∷ rest else next

first_full : List Text → Text
first_full [] = []
first_full (p ∷ ps) =
    let cleaned = join (codes " ") (split_words p) in
    let rest = first_full ps in if is_empty cleaned then rest else cleaned

-- `_first_paragraph`
unfoldable pub first_paragraph : Text → Text
unfolding paragraphs_from first_full
first_paragraph text = first_full (paragraphs_from [] text)

-- the lines up to the next `---`, and those after it
find_close : List Text → Option (List Text × List Text)
find_close [] = none
find_close (l ∷ ls) =
    let rest = find_close ls in
    if text_eq (strip l) (codes "---") then some ([], ls) else add_line l rest
  where
    add_line : Text → Option (List Text × List Text) → Option (List Text × List Text)
    add_line l none = none
    add_line l (some (front, after)) = some (l ∷ front, after)

-- the description that the front matter gives, the last one where it gives several
read_description : Text → List Text → Text
read_description description [] = description
read_description description (l ∷ ls) =
    let (key, value) = partition 58 l in
    read_description
      (if text_eq (lower (strip key)) (codes "description")
        then take description_max_chars (join (codes " ") (split_words value))
        else description)
      ls

drop_newlines : Text → Text
drop_newlines [] = []
drop_newlines (c ∷ s) = let rest = drop_newlines s in if c == 10 then rest else c ∷ s

split_closed : Text → Option (List Text × List Text) → Text × Text
split_closed raw none = ([], raw)
split_closed raw (some (front, after)) =
    (read_description [] front, drop_newlines (join (10 ∷ []) after))

-- the description of the front matter and the body after it
split_front : Text → List Text → Text × Text
split_front raw [] = ([], raw)
split_front raw (l ∷ ls) =
    if text_eq (strip l) (codes "---") then split_closed raw (find_close ls) else ([], raw)

abbrev pub truncation_note : Text
truncation_note = codes "\n…(skill body truncated)"

-- a body within the budget and the note of its truncation
abbrev pub is_short : ℕ → Skill → Bool
is_short budget s = leb (length s.body) (budget + length truncation_note)

-- the body kept within the budget
unfoldable pub cut_body : ℕ → Text → Text
cut_body budget body =
    if ltb budget (length body) then take budget body ++ truncation_note else body

-- `_parse_skill_file`
unfoldable pub parse_skill_file : ℕ → Text → Text → Text → Option Skill
unfolding split_front split_closed find_close read_description drop_newlines
parse_skill_file budget raw name label =
    let (given, body) = split_front raw (split_lines raw) in
    let description =
      if is_empty given then take description_fallback_chars (first_paragraph body) else given in
    if is_empty (strip raw)
    then none
    else some (record {
      name = name;
      description = if is_empty description then name else description;
      body = cut_body budget body;
      source = label;
    })

-- `discovered[name] = skill`
unfoldable pub put_skill : Skill → List Skill → List Skill
put_skill s [] = s ∷ []
put_skill s (t ∷ ts) =
    let rest = put_skill s ts in if text_eq t.name s.name then s ∷ ts else t ∷ rest

unfoldable pub put_parsed : Option Skill → List Skill → List Skill
put_parsed none found = found
put_parsed (some s) found = put_skill s found

unfoldable pub discover_files : ℕ → Text → List SkillFile → List Skill → List Skill
discover_files budget label [] found = found
discover_files budget label (f ∷ fs) found =
    let name = lower f.stem in
    discover_files budget label fs (
      if is_valid_name name
      then put_parsed (parse_skill_file budget f.raw name label) found
      else found)

unfoldable pub discover_from : ℕ → List Directory → List Skill → List Skill
discover_from budget [] found = found
discover_from budget (d ∷ ds) found =
    discover_from budget ds (discover_files budget d.label d.files found)

-- `discover`: a later directory shadows an earlier one
unfoldable pub discover : ℕ → List Directory → List Skill
unfolding put_skill put_parsed discover_files discover_from
discover budget ds = discover_from budget ds []

-- `SkillBank.__init__`, on the directories that are given
unfoldable pub new : ℕ → ℕ → ℕ → ℕ → List Directory → Bank
new body_budget max_resident max_total_chars max_loads_per_turn ds =
    let budget = max 500 body_budget in
    record {
      body_budget = budget;
      max_resident = max 1 max_resident;
      max_total_chars = max budget max_total_chars;
      max_loads_per_turn = max 1 max_loads_per_turn;
      skills = discover budget ds;
      resident = [];
      pending = [];
    }
