-- ===== src/Analyzers/Turn.antt =====
-- supervisor/analyzers/loop_detector.py: the signature of a turn, the short form of a text, and
-- the signal that the detectors of that file and of stagnation_detector.py raise.
use super_opencode.Base.{
  ℕ, Bool, false, ◌&&◌, [], ◌∷◌, ◌++◌, leb, ltb, if◌then◌else◌, length, take, take_last, Text,
  codes, is_space, is_digit, lower, strip, split_words, join,
}

pub record LoopSignal : Type 0 where
  pub reason : Text
  pub marker : Text

-- `_DIGITS.sub("#", t)`: each run of digits becomes one `#`. `inside` tells that the character
-- before belongs to a run that is already replaced.
unfoldable pub mask_digits : Bool → Text → Text
mask_digits inside [] = []
mask_digits inside (c ∷ s) =
    let rest = mask_digits (is_digit c) s in
    if is_digit c && inside then rest else (if is_digit c then 35 else c) ∷ rest

-- `_WS.sub(" ", t)`: each run of white space becomes one space.
unfoldable pub collapse_spaces : Bool → Text → Text
collapse_spaces inside [] = []
collapse_spaces inside (c ∷ s) =
    let rest = collapse_spaces (is_space c) s in
    if is_space c && inside then rest else (if is_space c then 32 else c) ∷ rest

-- the last step of `_normalize_turn`: 250 characters of the head and 150 of the tail
abbrev both_ends : Text → Text
both_ends t = take 250 t ++ codes " ⋯ " ++ take_last 150 t

unfoldable pub normalize_turn : Text → Text
unfolding mask_digits collapse_spaces strip
normalize_turn text =
    let t = strip (collapse_spaces false (mask_digits false (lower text))) in
    if leb (length t) 400 then t else both_ends t

unfoldable pub short : ℕ → Text → Text
unfolding split_words join
short n text =
    let s = join (codes " ") (split_words text) in
    take n s ++ (if ltb n (length s) then codes "…" else [])
