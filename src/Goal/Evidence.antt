-- ===== src/Goal/Evidence.antt =====
-- supervisor/core/goal_guard.py: the files that count as evidence, and the criteria of a target.
use super_opencode.Base.{
  ℕ, Bool, not, ◌||◌, List, [], ◌∷◌, map, keep, ltb, ◌==◌, if◌then◌else◌, is_empty, take, reverse,
  length, Text, codes, contains, lower, mem_text, text_eq, split_lines, strip, is_digit,
}
use super_opencode.Utils.Excerpt.{head_tail_excerpt}

-- The text up to the first `c`, and the text behind it.
unfoldable pub before : ℕ → Text → Text
before c [] = []
before c (d ∷ s) = if d == c then [] else d ∷ before c s

unfoldable pub behind : ℕ → Text → Text
behind c [] = []
behind c (d ∷ s) = if d == c then s else behind c s

-- `Path(path).name` of a path that does not end in a slash
unfoldable pub file_name : Text → Text
file_name path = reverse (before b'/' (reverse path))

-- `stem`: a dot in the first or the last place does not count
unfoldable pub stem_of : Text → Text
stem_of name =
    let suffix = before b'.' (reverse name) in
    let rest = behind b'.' (reverse name) in
    if is_empty suffix || is_empty rest then name else reverse rest

unfoldable pub looks_like_test_file : Text → Bool
looks_like_test_file path =
    let name = lower (file_name path) in
    let stem = lower (stem_of (file_name path)) in
    text_eq (take 5 name) (codes "test_")
    || contains (codes "_test.") name
    || contains (codes ".test.") name
    || text_eq stem (codes "conftest")
    || text_eq stem (codes "tests")
    || contains (codes "spec") stem

-- `_OPENCODE_GENERATED_MD` and the task state
abbrev pub generated_files : List Text
generated_files =
    codes "summary.md"
    ∷ codes "failure_report.md"
    ∷ codes "evolution_report.md"
    ∷ codes "TASK_STATE.md"
    ∷ []

unfoldable pub evidence_files : List Text → List Text
evidence_files changed = keep (λ f. not (mem_text (file_name f) generated_files)) changed

drop_bullets : Text → Text
drop_bullets [] = []
drop_bullets (c ∷ s) = if c == b'-' || c == b'*' || c == 8226 then drop_bullets s else c ∷ s

drop_numbers : Text → Text
drop_numbers [] = []
drop_numbers (c ∷ s) = if is_digit c || c == b'.' then drop_numbers s else c ∷ s

-- one line of `criteria_from_protocol`, blank where it gives no criterion
clean_line : Text → Text
unfolding drop_bullets drop_numbers
clean_line raw =
    let cleaned = strip (drop_numbers (strip (drop_bullets (strip raw)))) in
    if ltb 300 (length cleaned) then head_tail_excerpt cleaned 300 50 else cleaned

unfoldable pub criteria_from_protocol : Text → List Text
unfolding clean_line
criteria_from_protocol target_section =
    take 8 (keep (λ line. not (is_empty line)) (map clean_line (split_lines target_section)))
