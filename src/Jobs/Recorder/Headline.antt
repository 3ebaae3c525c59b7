-- ===== src/Jobs/Recorder/Headline.antt =====
-- services/jobs/event_recorder.py: the headlines that stand for large event bodies.
use super_opencode.Base.{
  ℕ, zero, suc, ◌+◌, ◌-◌, not, ◌||◌, Option, none, some, List, [], ◌∷◌, ◌++◌, map, keep, reverse,
  leb, if◌then◌else◌, is_empty, length, take, take_last, Text, codes, mem_text, strip, rstrip,
  split_lines, join, show_nat,
}

-- _HEAD_LINES, _TAIL_LINES and _JOIN_THRESHOLD_LINES
abbrev pub head_lines : ℕ
head_lines = 2

abbrev pub tail_lines : ℕ
tail_lines = 2

abbrev pub join_threshold_lines : ℕ
join_threshold_lines = head_lines + tail_lines + 2

-- _HEADLINE_LINE_LIMIT and _SUGGESTION_HEAD_CHARS
abbrev pub headline_line_limit : ℕ
headline_line_limit = 200

abbrev pub suggestion_head_chars : ℕ
suggestion_head_chars = 300

-- `_shorten`
unfoldable pub shorten : ℕ → Text → Text
shorten limit line =
    if leb (length (strip line)) limit
    then strip line
    else take (limit - 1) (strip line) ++ codes "…"

-- `_first_nonempty_lines`, on the lines and for a positive count
unfoldable pub first_nonempty_lines : ℕ → List Text → List Text
first_nonempty_lines zero ls = []
first_nonempty_lines (suc n) [] = []
first_nonempty_lines (suc n) (l ∷ ls) =
    let next = first_nonempty_lines n ls in
    let skip = first_nonempty_lines (suc n) ls in
    if is_empty (strip l) then skip else shorten headline_line_limit l ∷ next

-- `_last_nonempty_lines`
unfoldable pub last_nonempty_lines : ℕ → List Text → List Text
last_nonempty_lines n ls =
    map (shorten headline_line_limit)
      (take_last n (map rstrip (keep (λ l. not (is_empty (strip l))) ls)))

-- the digits of a number, the lowest first, with a comma before each third one
unfoldable pub group : ℕ → Text → Text
group k [] = []
group zero (d ∷ ds) = 44 ∷ d ∷ group 2 ds
group (suc k) (d ∷ ds) = d ∷ group k ds

-- `f"{n:,}"`
unfoldable pub grouped : ℕ → Text
grouped n = reverse (group 3 (reverse (show_nat n)))

-- the lines of the tail that the head has not
abbrev pub new_lines : List Text → List Text → List Text
new_lines head tail = keep (λ l. not (mem_text l head)) tail

unfoldable pub headline_prompt : Option Text → Text → Text
headline_prompt kind msg =
    codes "→ "
    ++ (elim kind [ none ↦ codes "prompt" | some k ↦ if is_empty k then codes "prompt" else k ])
    ++ codes " prompt ("
    ++ grouped (length msg)
    ++ codes " chars)"

-- the body of `_headline_output`
unfoldable pub output_body : List Text → Text
output_body lines =
    let head = first_nonempty_lines head_lines lines in
    let tail = last_nonempty_lines tail_lines lines in
    if leb (length lines) join_threshold_lines
    then join (codes " ⏎ ") (head ++ new_lines head tail)
    else join (codes " ⏎ ") head
      ++ (if is_empty head || is_empty tail then [] else codes " … ")
      ++ join (codes " ⏎ ") tail

unfoldable pub headline_output : Text → Text
headline_output msg =
    let lines = split_lines msg in
    codes "← output ("
    ++ grouped (length msg)
    ++ codes " chars, "
    ++ show_nat (length lines)
    ++ codes " lines): "
    ++ output_body lines

unfoldable pub verdict_lines : List Text → Text
verdict_lines lines =
    let head = first_nonempty_lines head_lines lines in
    let tail = last_nonempty_lines tail_lines lines in
    codes "⚖ verdict: " ++ join (codes " ⏎ ") (head ++ new_lines head tail)

unfoldable pub headline_verdict : Option Text → Text → Text
headline_verdict none msg = verdict_lines (split_lines msg)
headline_verdict (some digest) msg =
    if is_empty (strip digest) then verdict_lines (split_lines msg) else strip digest

-- the loop of `_headline_suggestions`
unfoldable pub first_suggestion : List Text → Text
first_suggestion [] = []
first_suggestion (l ∷ ls) =
    if is_empty (strip l) then first_suggestion ls else shorten suggestion_head_chars l

unfoldable pub headline_suggestions : Text → Text
headline_suggestions msg =
    codes "💡 suggestions ("
    ++ grouped (length msg)
    ++ codes " chars): "
    ++ first_suggestion (split_lines msg)
