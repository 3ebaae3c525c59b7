-- ===== src/Monitoring/Tokens/Truncate.antt =====
-- supervisor/monitoring/token_estimator.py: what truncation keeps.
use super_opencode.Base.{
  ℕ, ◌+◌, ◌-◌, ◌*◌, ◌≤◌, ◌<◌, ◌≡◌, ◌∙◌, ap, ◌++◌, arith, length, length-append, length-take,
  length-drop, take, from_end, Text,
}
use super_opencode.Monitoring.Tokens.{
  Encoder, estimate_tokens, available_of, share, marker, cut_middle, truncate_prompt,
  truncate_with_fallback,
}

-- The text is cut: its estimate and its length are over what may stay.
abbrev pub IsOver : Encoder → Text → ℕ → Type 0
IsOver enc text max_tokens =
    (available_of max_tokens < estimate_tokens enc text)
    × (available_of max_tokens * 4 < length text)

share-le : (n percent : ℕ) → percent ≤ 100 → share n percent ≤ n
share-le n percent h = grind arith

length-from_end_pos : (n : ℕ) (ks : Text) → 0 < n → n ≤ length ks → length (from_end n ks) ≡ n
length-from_end_pos n ks pos h = ground (arith, length-drop (length ks - n) ks)

length-cut_middle :
    (text mark : Text) (start end : ℕ)
    → 0 < end
    → start + end ≤ length text
    → length (cut_middle text start end mark) ≡ start + end + length mark
length-cut_middle text mark start end pos fits =
    let tail = from_end end text in
    length-append (take start text) (mark ++ tail)
    ∙ omega (
      arith,
      length-append mark tail,
      length-take start text,
      length-from_end_pos end text pos (omega arith),
    )

marker_pos : (removed percent : ℕ) → 0 < length (marker removed percent)
unfolding marker
marker_pos removed percent = omega arith

longer_than :
    (start mark text : Text) → 0 < length mark → length text < length (start ++ (mark ++ text))
longer_than start mark text h =
    omega (arith, length-append start (mark ++ text), length-append mark text)

module _ (enc : Encoder) (text : Text) (max_tokens percent : ℕ) where
  abbrev kept_end : ℕ
  kept_end = share (available_of max_tokens) percent

  abbrev kept_start : ℕ
  kept_start = available_of max_tokens - kept_end

  -- what stands between the two ends
  abbrev mark : Text
  mark = marker (estimate_tokens enc text - available_of max_tokens) percent

  truncate_prompt-over :
      percent ≤ 100
      → IsOver enc text max_tokens
      → truncate_prompt enc text max_tokens percent
        ≡ cut_middle text (kept_start * 4) (kept_end * 4) mark
  unfolding truncate_prompt
  truncate_prompt-over h over = ground (arith, share-le (available_of max_tokens) percent h)

  -- A text over the limit, of which at least one token's worth of the end is to stay, is cut to
  -- four characters for each available token and the marker: no more of the text is kept.
  pub length-truncate_prompt :
      percent ≤ 100
      → IsOver enc text max_tokens
      → 0 < share (available_of max_tokens) percent
      → length (truncate_prompt enc text max_tokens percent)
        ≡ available_of max_tokens * 4
          + length (marker (estimate_tokens enc text - available_of max_tokens) percent)
  length-truncate_prompt h over ends = rw (truncate_prompt-over h over) (
      omega (
        arith,
        share-le (available_of max_tokens) percent h,
        length-cut_middle text mark (kept_start * 4) (kept_end * 4) (omega arith)
            (omega (arith, share-le (available_of max_tokens) percent h, over)),
      ))

  -- A text over the limit of which no token's worth of the end is to stay comes back whole behind
  -- its own head and the marker, so it grows: the slice from `-0` is the whole text.
  pub truncate_prompt_grows :
      percent ≤ 100
      → IsOver enc text max_tokens
      → share (available_of max_tokens) percent ≡ 0
      → (truncate_prompt enc text max_tokens percent
          ≡ take (available_of max_tokens * 4) text
            ++ (marker (estimate_tokens enc text - available_of max_tokens) percent ++ text))
        × (length text < length (truncate_prompt enc text max_tokens percent))
  truncate_prompt_grows h over none_kept =
      rw (truncate_prompt-over h over, none_kept)
        (
          ap (λ n. take n text ++ (mark ++ text)) (omega arith),
          longer_than (take ((available_of max_tokens - 0) * 4) text) mark text
              (marker_pos (estimate_tokens enc text - available_of max_tokens) percent),
        )

-- If the system prompt leaves a budget and the user input fits into 70 % of it, the user input comes
-- back unchanged, however large the conversation history is: nothing is cut.
pub truncate_with_fallback_keeps :
    (enc : Encoder) (text : Text) (max_tokens : ℕ) (system history : Text)
    → let budget = available_of max_tokens - estimate_tokens enc system in
      estimate_tokens enc system < available_of max_tokens
      → estimate_tokens enc text ≤ budget - share budget 30
      → truncate_with_fallback enc text max_tokens system history ≡ text
unfolding truncate_with_fallback
truncate_with_fallback_keeps enc text max_tokens system history room fits = ground arith
