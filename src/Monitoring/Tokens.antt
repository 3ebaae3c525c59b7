-- ===== src/Monitoring/Tokens.antt =====
-- supervisor/monitoring/token_estimator.py. The fractions of the source are percentages here, and
-- `int(n * f)` is the floor of the exact product. The encoder of the tiktoken package is a
-- parameter: `none` if it is not installed, and a call of it may fail.
pub mod Truncate
mod Tests
use super_opencode.Base.{
  ℕ, ◌+◌, ◌-◌, ◌*◌, ◌/◌, Bool, Option, none, some, ◌++◌, leb, ltb, max, if◌then◌else◌, is_empty,
  length, take, from_end, keep, List, [], ◌∷◌, Text, codes, show_nat,
}

abbrev pub Encoder : Type 0
Encoder = Option (Text → Option ℕ)

abbrev pub chars_per_token : ℕ
chars_per_token = 4

abbrev pub response_margin : ℕ
response_margin = 25

-- `int(n * percent / 100)`
abbrev pub share : ℕ → ℕ → ℕ
share n percent = n * percent / 100

by_chars : Text → ℕ
by_chars text = max 1 (length text / chars_per_token)

unfoldable pub estimate_tokens : Encoder → Text → ℕ
unfolding by_chars
estimate_tokens enc text = if is_empty text then 0 else elim enc [
  | none ↦ by_chars text
  | some encode ↦ elim (encode text) [ none ↦ by_chars text | some n ↦ max 1 n ]
]

pub record TokenEstimate : Type 0 where
  pub total : ℕ
  pub system_prompt : ℕ
  pub conversation_history : ℕ
  pub user_input : ℕ

unfoldable pub total_with_response : TokenEstimate → ℕ
total_with_response e = e.total + share e.total response_margin

unfoldable pub estimate_request_tokens : Encoder → Text → Text → Text → TokenEstimate
estimate_request_tokens enc system history user =
    let s = estimate_tokens enc system in
    let h = estimate_tokens enc history in
    let u = estimate_tokens enc user in
    record { total = s + h + u; system_prompt = s; conversation_history = h; user_input = u }

-- `int(max_tokens * (1.0 - _RESPONSE_MARGIN))`
abbrev pub available_of : ℕ → ℕ
available_of max_tokens = share max_tokens (100 - response_margin)

unfoldable pub should_truncate : TokenEstimate → ℕ → Bool
should_truncate e max_tokens = ltb (available_of max_tokens) e.total

unfoldable pub marker : ℕ → ℕ → Text
marker removed percent =
    codes "\n\n[... TRUNCATED: ~"
    ++ show_nat removed
    ++ codes " tokens removed (preserving "
    ++ show_nat percent
    ++ codes "% from end) ...]\n\n"

-- `text[:start] + marker + text[-end:]`; a Python slice from `-0` is the whole text
abbrev pub cut_middle : Text → ℕ → ℕ → Text → Text
cut_middle text start end mark = take start text ++ (mark ++ from_end end text)

unfoldable pub truncate_prompt : Encoder → Text → ℕ → ℕ → Text
truncate_prompt enc text max_tokens percent =
    let estimated = estimate_tokens enc text in
    let available = available_of max_tokens in
    let end_tokens = share available percent in
    let start_chars = (available - end_tokens) * chars_per_token in
    let end_chars = end_tokens * chars_per_token in
    if leb estimated available
    then text
    else if leb (length text) (start_chars + end_chars)
    then text
    else cut_middle text start_chars end_chars (marker (estimated - available) percent)

-- `budget` is an integer that may be negative: the test is on the two sides of the subtraction.
unfoldable pub truncate_with_fallback : Encoder → Text → ℕ → Text → Text → Text
truncate_with_fallback enc text max_tokens system history =
    let e = estimate_request_tokens enc system history text in
    let available = available_of max_tokens in
    let sys = estimate_tokens enc system in
    let budget = available - sys in
    let hist = estimate_tokens enc history in
    let user = estimate_tokens enc text in
    let user_budget = budget - share budget 30 in
    if should_truncate e max_tokens
    then (if leb available sys
        then truncate_prompt enc text (max_tokens / 4) 30
        else if ltb budget (hist + user)
        then (if ltb user_budget user then truncate_prompt enc text user_budget 30 else text)
        else text)
    else text

abbrev pub warning_thresholds : List ℕ
warning_thresholds = 50 ∷ 60 ∷ 70 ∷ 80 ∷ 90 ∷ []

abbrev last_of : List ℕ → Option ℕ
last_of [] = none
last_of (x ∷ []) = some x
last_of (x ∷ y ∷ ys) = last_of (y ∷ ys)

-- `fraction >= percent / 100`, for a fraction `n / d` with `d` positive
abbrev pub reaches : ℕ × ℕ → ℕ → Bool
reaches (n, d) percent = leb (percent * d) (100 * n)

-- The crossed thresholds are ascending, so the largest is the last.
unfoldable pub get_threshold_for_fraction : ℕ × ℕ → Option ℕ
get_threshold_for_fraction fraction = last_of (keep (reaches fraction) warning_thresholds)
