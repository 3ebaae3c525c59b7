-- ===== src/Utils/Excerpt.antt =====
-- supervisor/utils/text_utils.py: head_tail_excerpt. `end_ratio` is a percentage.
use super_opencode.Base.{
  ℕ, ◌+◌, ◌-◌, ◌*◌, ◌/◌, ◌≤◌, ◌<◌, ◌≡◌, ◌∙◌, refl, ◌||◌, [], ◌∷◌, ◌++◌, arith, leb, ◌==◌, max,
  if◌then◌else◌, length, length-append, length-drop, length-take, take, ap, reverse-append, drop,
  reverse, Text, codes, drop_spaces, rstrip, show_nat,
}

-- the marker between the two ends
unfoldable pub omission : ℕ → Text
omission n = codes " [... " ++ (show_nat n ++ codes " chars omitted ...] ")

unfoldable pub head_tail_excerpt : Text → ℕ → ℕ → Text
head_tail_excerpt text max_chars end_percent =
    let end_chars = max 1 (max_chars * end_percent / 100) in
    let head_chars = max 1 (max_chars - end_chars) in
    let omitted = length text - head_chars - end_chars in
    if max_chars == 0 || leb (length text) max_chars
    then text
    else rstrip (take head_chars text)
      ++ (omission omitted ++ drop_spaces (drop (length text - end_chars) text))

length-drop_spaces : (s : Text) → length (drop_spaces s) ≤ length s
unfolding drop_spaces
length-drop_spaces [] = omega arith
length-drop_spaces (c ∷ s) = ground (arith, length-drop_spaces s)

length-reverse : (s : Text) → length (reverse s) ≡ length s
length-reverse [] = refl
length-reverse (c ∷ s) =
    ap length (reverse-append (c ∷ []) s)
    ∙ length-append (reverse s) (c ∷ [])
    ∙ omega (arith, length-reverse s)

pub length-rstrip : (s : Text) → length (rstrip s) ≤ length s
unfolding rstrip
length-rstrip s = omega (
  arith,
  length-reverse (drop_spaces (reverse s)),
  length-drop_spaces (reverse s),
  length-reverse s,
)

excerpt-cut :
    (head tail : Text) (n h e : ℕ)
    → length head ≤ h
    → length tail ≤ e
    → length (head ++ (omission n ++ tail)) ≤ h + e + length (omission n)
excerpt-cut head tail n h e p q =
    omega (arith, length-append head (omission n ++ tail), length-append (omission n) tail)

end_share-lt : (m p : ℕ) → 0 < m → p < 100 → m * p / 100 < m
end_share-lt m p pos part = grind arith

-- The two ends make up exactly `m` characters.
ends_sum : (m p : ℕ) → 2 ≤ m → p < 100 → max 1 (m - max 1 (m * p / 100)) + max 1 (m * p / 100) ≡ m
ends_sum m p two part = omega (arith, end_share-lt m p (omega arith) part)

excerpt_fits : (text : Text) (m p : ℕ) → length text ≤ m → head_tail_excerpt text m p ≡ text
unfolding head_tail_excerpt
excerpt_fits text m p h = ground arith

-- the two parts of an excerpt that is cut
excerpt_parts :
    (text : Text) (m p : ℕ)
    → m < length text
    → 0 < m
    → let e = max 1 (m * p / 100) in
      let h = max 1 (m - e) in
      head_tail_excerpt text m p
      ≡ rstrip (take h text)
        ++ (omission (length text - h - e) ++ drop_spaces (drop (length text - e) text))
unfolding head_tail_excerpt
excerpt_parts text m p over pos = ground arith

-- An excerpt of at least two characters, less than all of them for the end, is the text itself where
-- that fits. A longer text gets a marker with the number of characters over the limit, and keeps at
-- most `max_chars` characters beside the marker.
pub length-head_tail_excerpt :
    (text : Text) (max_chars end_percent : ℕ)
    → 2 ≤ max_chars
    → end_percent < 100
    → (length text ≤ max_chars → head_tail_excerpt text max_chars end_percent ≡ text)
      × (max_chars < length text
          → length (head_tail_excerpt text max_chars end_percent)
            ≤ max_chars + length (omission (length text - max_chars)))
length-head_tail_excerpt text m p two part = (
  λ fits. excerpt_fits text m p fits,
  λ over.
      let e = max 1 (m * p / 100) in
      let h = max 1 (m - e) in
      let sum : h + e ≡ m = ends_sum m p two part in
      let omitted : length text - h - e ≡ length text - m = omega arith in
      let tail = drop_spaces (drop (length text - e) text) in
      let head = rstrip (take h text) in
      let cut : length (head ++ (omission (length text - m) ++ tail))
          ≤ h + e + length (omission (length text - m)) =
        excerpt-cut head tail (length text - m) h e
          (omega (arith, length-rstrip (take h text), length-take h text))
          (omega (
            arith,
            length-drop_spaces (drop (length text - e) text),
            length-drop (length text - e) text,
          )) in
      rw (excerpt_parts text m p over (omega arith), omitted) (omega (arith, cut)),
)
