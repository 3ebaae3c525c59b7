-- ===== src/Jobs/Outcome.antt =====
-- services/jobs/job_manager.py: final_state_from_logs. Of an event only its level is read, as a text.
use super_opencode.Base.{
  ◌≡◌, ◌∙◌, refl, sym, ap, Bool, false, ◌||◌, Option, none, some, is_some, List, [], ◌∷◌, ◌++◌,
  reverse, reverse-append, any, arith, append_assoc, append-nil, if◌then◌else◌, Text, codes,
  text_eq,
}
use super_opencode.Jobs.States.{JobState, success, failed, blocked}

-- _TERMINAL_EVENT_STATES
unfoldable pub closing_state : Text → Option JobState
closing_state level =
    if text_eq level (codes "success")
    then some success
    else if text_eq level (codes "blocked")
    then some blocked
    else none

abbrev pub is_error : Text → Bool
is_error level = text_eq level (codes "error")

-- The loop, from the newest event on; `broken` is whether a newer event is an error.
unfoldable pub scan : List Text → Bool → JobState
scan [] broken = failed
scan (level ∷ older) broken = elim (closing_state level) [
  | none ↦ scan older (broken || is_error level)
  | some state ↦ if broken then failed else state
]

unfoldable pub final_state_from_logs : List Text → JobState
final_state_from_logs levels = scan (reverse levels) false

abbrev pub is_closing : Text → Bool
is_closing level = is_some (closing_state level)

any-append : (p : Text → Bool) (xs ys : List Text) → any p (xs ++ ys) ≡ (any p xs || any p ys)
any-append p [] ys = refl
any-append p (x ∷ xs) ys = ground (arith, any-append p xs ys)

any-reverse : (p : Text → Bool) (xs : List Text) → any p (reverse xs) ≡ any p xs
any-reverse p [] = refl
any-reverse p (x ∷ xs) =
    ap (any p) (reverse-append (x ∷ []) xs)
    ∙ any-append p (reverse xs) (x ∷ [])
    ∙ ground (arith, any-reverse p xs)

-- Events without a closing marker are passed over, and an error among them is remembered.
scan-quiet :
    (newer older : List Text) (broken : Bool)
    → any is_closing newer ≡ false
    → scan (newer ++ older) broken ≡ scan older (broken || any is_error newer)
unfolding scan
scan-quiet [] older broken quiet = ground arith
scan-quiet (level ∷ newer) older broken quiet =
    let rest = scan-quiet newer older (broken || is_error level) (ground arith) in
    ground (arith, rest)

-- The state of a log is that of its last closing marker, unless an error is logged behind it, which
-- makes the job failed; and a log without a closing marker is that of a failed job.
pub final_state_is_last_marker :
    (older newer : List Text) (marker : Text) (state : JobState)
    → any is_closing newer ≡ false
    → (closing_state marker ≡ some state
        → final_state_from_logs (older ++ marker ∷ newer)
          ≡ (if any is_error newer then failed else state))
      × (final_state_from_logs newer ≡ failed)
unfolding final_state_from_logs scan
final_state_is_last_marker older newer marker state quiet =
    let quiet' : any is_closing (reverse newer) ≡ false = any-reverse is_closing newer ∙ quiet in
    (
      λ closing.
          let tail = scan-quiet (reverse newer) (marker ∷ reverse older) false quiet' in
          let split : reverse (older ++ marker ∷ newer) ≡ reverse newer ++ marker ∷ reverse older =
            reverse-append older (marker ∷ newer)
            ∙ ap (λ xs. xs ++ reverse older) (reverse-append (marker ∷ []) newer)
            ∙ append_assoc (reverse newer) (marker ∷ []) (reverse older) in
          ap (λ xs. scan xs false) split ∙ tail ∙ at_marker closing,
      ap (λ xs. scan xs false) (sym (append-nil (reverse newer)))
          ∙ scan-quiet (reverse newer) [] false quiet',
    )
  where
    at_marker :
        closing_state marker ≡ some state
        → scan (marker ∷ reverse older) (any is_error (reverse newer))
          ≡ (if any is_error newer then failed else state)
    at_marker closing = unfold scan in ground (arith, closing, any-reverse is_error newer)
