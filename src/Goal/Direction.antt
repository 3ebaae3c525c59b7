-- ===== src/Goal/Direction.antt =====
-- supervisor/core/target_state.py: the fingerprint of a direction and repeated directions.
use super_opencode.Base.{
  ℕ, Bool, true, false, not, ◌&&◌, ◌||◌, Option, none, some, List, [], ◌∷◌, reverse, map, leb, ltb,
  ◌==◌, if◌then◌else◌, is_empty, keep, length, take, Text, codes, is_digit, is_lower, is_upper,
  lower, mem_text, split_words, join,
}
use super_opencode.Monitoring.Tokens.{reaches}
use super_opencode.Goal.Criterion.{runs_of, to_set, overlap}

-- `[a-z0-9_./-]`, in either case
abbrev pub is_direction_char : ℕ → Bool
is_direction_char c =
    is_lower c || is_upper c || is_digit c || c == b'_' || c == b'.' || c == b'/' || c == b'-'

-- `_STOP_WORDS` of target_state.py
unfoldable pub direction_stop_words : List Text
unfolding split_words
direction_stop_words = split_words (
    codes
      "agent and before candidate code current from into must output please should that the this with without")

-- the order of Python's strings
unfoldable pub text_le : Text → Text → Bool
text_le [] t = true
text_le (c ∷ s) [] = false
text_le (c ∷ s) (d ∷ t) = ltb c d || (c == d && text_le s t)

insert_text : Text → List Text → List Text
insert_text t [] = t ∷ []
insert_text t (u ∷ us) = if text_le t u then t ∷ u ∷ us else u ∷ insert_text t us

-- `sorted`
unfoldable pub sort_texts : List Text → List Text
unfolding insert_text text_le
sort_texts [] = []
sort_texts (t ∷ ts) = insert_text t (sort_texts ts)

unfoldable pub direction_fingerprint : Text → Text
unfolding runs_of direction_stop_words to_set sort_texts join
direction_fingerprint text =
    let found = keep (λ t. leb 3 (length t)) (runs_of is_direction_char [] text) in
    let tokens = keep (λ t. not (mem_text t direction_stop_words)) (map lower found) in
    join (codes " ") (take 24 (sort_texts (to_set tokens)))

-- The loop of `similar_rejected_direction`, over the newest direction first.
unfoldable pub find_similar : List Text → List Text → Option Text
find_similar candidate [] = none
find_similar candidate (previous ∷ rest) =
    if reaches (overlap candidate (to_set (split_words previous))) 75
    then some previous
    else find_similar candidate rest

unfoldable pub similar_rejected_direction : List Text → Text → Option Text
similar_rejected_direction rejected direction =
    let candidate = to_set (split_words (direction_fingerprint direction)) in
    if is_empty candidate then none else find_similar candidate (reverse rejected)
