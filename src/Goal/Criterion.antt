-- ===== src/Goal/Criterion.antt =====
-- supervisor/core/goal_progress.py: the identity of an acceptance criterion. Sets of tokens are
-- lists without repeats. Word characters are those of ASCII and the range U+4E00 to U+9FFF.
use super_opencode.Base.{
  ℕ, ◌+◌, ◌-◌, Bool, false, not, ◌&&◌, ◌||◌, Option, none, some, List, [], ◌∷◌, leb, ltb, ◌==◌,
  if◌then◌else◌, is_empty, any, keep, length, reverse, Text, codes, is_space, is_digit, is_lower,
  is_upper, lower, strip, split_words, mem_text,
}

abbrev is_cjk : ℕ → Bool
is_cjk c = leb 0x4e00 c && leb c 0x9fff

-- `_MARKUP_RE`
is_markup : ℕ → Bool
is_markup c = any (λ m. m == c) (codes "`*_[](){}<>|~")

-- `_MARKUP_RE.sub(" ", text)`
unfoldable pub blank_markup : Bool → Text → Text
unfolding is_markup
blank_markup inside [] = []
blank_markup inside (c ∷ s) =
    let rest = blank_markup (is_markup c) s in
    if is_markup c && inside then rest else (if is_markup c then 32 else c) ∷ rest

abbrev span_digits : Text → Text × Text
span_digits [] = ([], [])
span_digits (c ∷ s) =
    let (ds, rest) = span_digits s in if is_digit c then (c ∷ ds, rest) else ([], c ∷ s)

abbrev skip : (ℕ → Bool) → Text → Text
skip p [] = []
skip p (c ∷ s) = if p c then skip p s else c ∷ s

-- `s.removeprefix(p)`, or `none` if `s` does not begin with `p`
abbrev after : Text → Text → Option Text
after [] s = some s
after (p ∷ ps) [] = none
after (p ∷ ps) (c ∷ s) = if p == c then after ps s else none

-- an optional word and the white space behind it
abbrev optional : Text → Text → Text
optional p s = elim (after p s) [ none ↦ s | some rest ↦ skip is_space rest ]

abbrev is_word : ℕ → Bool
is_word c = is_digit c || is_lower c || is_upper c || c == 95 || is_cjk c

abbrev starts_word : Text → Bool
starts_word [] = false
starts_word (c ∷ s) = is_word c

-- `[\s.:)\-]`
abbrev is_separator : ℕ → Bool
is_separator c = is_space c || c == b'.' || c == b':' || c == b')' || c == b'-'

-- `_LEAD_ID_RE.match` on a text in lower case: the digits of the id and the text behind the match.
-- No choice of the expression is ever taken back, since what follows a word cannot begin it.
unfoldable pub lead_id : Text → Option (Text × Text)
lead_id s =
    let (digits, rest) =
      span_digits (optional (codes "#") (optional (codes "t") (optional (codes "target") s))) in
    if is_empty digits || starts_word rest then none else some (digits, skip is_separator rest)

-- `_TOKEN_RE`
abbrev pub is_token : ℕ → Bool
is_token c = is_lower c || is_digit c || is_cjk c

-- `findall` for runs of characters of a class; `run` is the run being read, reversed
unfoldable pub runs_of : (ℕ → Bool) → Text → Text → List Text
runs_of p run [] = if is_empty run then [] else reverse run ∷ []
runs_of p run (c ∷ s) =
    let rest = runs_of p (if p c then c ∷ run else []) s in
    if p c || is_empty run then rest else reverse run ∷ rest

-- `_STOP_WORDS`
unfoldable pub stop_words : List Text
unfolding split_words
stop_words = split_words (
    codes
      "a an and any are as at be been being both but by can could did do does each either every for from had has have if in into is it its may might more most must no nor not of off on once only or other our out over same shall should so some such than that the their them then there these they this those through to too under until up upon us use used was we were what when where which while who will with within without would yes yet you your evidence clause clauses fail failed fails false pass passes passed true unknown missing")

-- `frozenset`
unfoldable pub to_set : List Text → List Text
to_set [] = []
to_set (t ∷ ts) = let rest = to_set ts in if mem_text t rest then rest else t ∷ rest

unfoldable pub criterion_tokens : Text → List Text
unfolding blank_markup lead_id runs_of stop_words to_set strip
criterion_tokens text =
    let cleaned = strip (blank_markup false (lower text)) in
    let body : Text = elim (lead_id cleaned) [ none ↦ cleaned | some (digits, rest) ↦ rest ] in
    to_set (keep (λ t. ltb 1 (length t) && not (mem_text t stop_words)) (runs_of is_token [] body))

-- '' when unnumbered
unfoldable pub criterion_number : Text → Text
unfolding blank_markup lead_id strip
criterion_number text = elim (lead_id (lower (strip (blank_markup false text)))) [
  | none ↦ []
  | some (digits, rest) ↦ digits
]

-- `len(left & right) / len(left | right)`, as a numerator and a denominator
unfoldable pub overlap : List Text → List Text → ℕ × ℕ
overlap left right =
    let common = length (keep (λ t. mem_text t right) left) in
    let union = length left + length right - common in
    if union == 0 then (1, 1) else (common, union)
