-- ===== src/Jobs/Recorder/Bounds.antt =====
-- services/jobs/event_recorder.py: the length of a headline.
use super_opencode.Base.{
  ℕ, zero, suc, ◌+◌, ◌-◌, ◌*◌, ◌≤◌, ◌≡◌, refl, Bool, true, false, not, ◌||◌, List, [], ◌∷◌, ◌++◌,
  map, keep, leb, if◌then◌else◌, is_empty, length, take, take_last, All, Text, codes, strip, rstrip,
  join, arith, length-append, length-take, length-take_last, Bool-cases, inl, inr, mem_text,
}
use super_opencode.Jobs.Recorder.Headline.{
  shorten, first_nonempty_lines, last_nonempty_lines, headline_line_limit, output_body, new_lines,
  head_lines, tail_lines, join_threshold_lines,
}

length-shorten : (limit : ℕ) (l : Text) → 1 ≤ limit → length (shorten limit l) ≤ limit
unfolding shorten
length-shorten limit l h = ground (
  arith,
  h,
  length-append (take (limit - 1) (strip l)) (codes "…"),
  length-take (limit - 1) (strip l),
)

-- Some lines, none longer than a headline's line.
record AreShort (n : ℕ) (ls : List Text) : Type 0 where
  few : length ls ≤ n
  short : All (λ (l : Text). length l ≤ headline_line_limit) ls

first-AreShort : (n : ℕ) (ls : List Text) → AreShort n (first_nonempty_lines n ls)
unfolding first_nonempty_lines
first-AreShort zero ls = record { few = omega arith; short = tt }
first-AreShort (suc n) [] = record { few = omega arith; short = tt }
first-AreShort (suc n) (l ∷ ls) =
    let next = first-AreShort n ls in
    let longer : AreShort (suc n) (shorten headline_line_limit l ∷ first_nonempty_lines n ls) =
      record {
        few = omega (arith, next.few);
        short = (length-shorten headline_line_limit l (omega arith), next.short);
      } in
    let skip = first-AreShort (suc n) ls in ground (arith, longer, skip)

map-short :
    (ls : List Text)
    → All (λ (l : Text). length l ≤ headline_line_limit) (map (shorten headline_line_limit) ls)
map-short [] = tt
map-short (l ∷ ls) = (length-shorten headline_line_limit l (omega arith), map-short ls)

length-map : (f : Text → Text) (ls : List Text) → length (map f ls) ≡ length ls
length-map f [] = refl
length-map f (l ∷ ls) = ground (arith, length-map f ls)

last-AreShort : (n : ℕ) (ls : List Text) → AreShort n (last_nonempty_lines n ls)
unfolding last_nonempty_lines
last-AreShort n ls =
    let full = map rstrip (keep (λ l. not (is_empty (strip l))) ls) in
    record {
      few = omega (
        arith,
        length-map (shorten headline_line_limit) (take_last n full),
        length-take_last n full,
      );
      short = map-short (take_last n full);
    }

-- a line more, and a line less
cons-AreShort :
    (n : ℕ) (l : Text) (ls : List Text)
    → length l ≤ headline_line_limit
    → AreShort n ls
    → AreShort (suc n) (l ∷ ls)
cons-AreShort n l ls h hs = record { few = omega (arith, hs.few); short = (h, hs.short) }

keep-short :
    (p : Text → Bool) (ls : List Text)
    → All (λ (l : Text). length l ≤ headline_line_limit) ls
    → AreShort (length ls) (keep p ls)
keep-short p [] hs = record { few = omega arith; short = tt }
keep-short p (l ∷ ls) (h, hs) =
    let rest = keep-short p ls hs in
    let longer = cons-AreShort (length ls) l (keep p ls) h rest in
    let same : AreShort (suc (length ls)) (keep p ls) = record {
      few = omega (arith, rest.few);
      short = rest.short;
    } in
    ground (arith, longer, same)

keep-AreShort : (n : ℕ) (p : Text → Bool) (ls : List Text) → AreShort n ls → AreShort n (keep p ls)
keep-AreShort n p ls h =
    let k = keep-short p ls h.short in record { few = omega (arith, k.few, h.few); short = k.short }

append-short :
    (xs ys : List Text)
    → All (λ (l : Text). length l ≤ headline_line_limit) xs
    → All (λ (l : Text). length l ≤ headline_line_limit) ys
    → All (λ (l : Text). length l ≤ headline_line_limit) (xs ++ ys)
append-short [] ys h k = k
append-short (x ∷ xs) ys (h, hs) k = (h, append-short xs ys hs k)

append-AreShort :
    (m n : ℕ) (xs ys : List Text) → AreShort m xs → AreShort n ys → AreShort (m + n) (xs ++ ys)
append-AreShort m n xs ys h k = record {
  few = omega (arith, h.few, k.few, length-append xs ys);
  short = append-short xs ys h.short k.short;
}

length-join :
    (sep : Text) (ls : List Text)
    → length sep ≡ 3
    → All (λ (l : Text). length l ≤ headline_line_limit) ls
    → length (join sep ls) ≤ length ls * 203 - 3
unfolding join
length-join sep [] three h = omega arith
length-join sep (l ∷ []) three (h, hs) = omega (arith, h)
length-join sep (l ∷ k ∷ ls) three (h, hs) = omega (
  arith,
  h,
  three,
  length-join sep (k ∷ ls) three hs,
  length-append (l ++ sep) (join sep (k ∷ ls)),
  length-append l sep,
)

-- What a gap of three characters at most adds between two rows of lines.
length-both :
    (sep gap : Text) (head tail : List Text)
    → length sep ≡ 3
    → length gap ≤ 3
    → AreShort 2 head
    → AreShort 2 tail
    → length (join sep head ++ gap ++ join sep tail) ≤ 809
length-both sep gap head tail three gap_le h k = omega (
  arith,
  gap_le,
  h.few,
  k.few,
  length-join sep head three h.short,
  length-join sep tail three k.short,
  length-append (join sep head ++ gap) (join sep tail),
  length-append (join sep head) gap,
)

length-all :
    (sep : Text) (ls : List Text) → length sep ≡ 3 → AreShort 4 ls → length (join sep ls) ≤ 809
length-all sep ls three h = omega (arith, h.few, length-join sep ls three h.short)

length-gap : (b : Bool) → length (if b then [] else codes " … ") ≤ 3
length-gap true = omega arith
length-gap false = omega arith

-- The body of an output's headline has 809 characters at most, whatever the output: four lines of 200
-- and three separators.
pub length-output_body : (lines : List Text) → length (output_body lines) ≤ 809
unfolding output_body
length-output_body lines =
    let head = first_nonempty_lines head_lines lines in
    let tail = last_nonempty_lines tail_lines lines in
    let first = first-AreShort head_lines lines in
    let last = last-AreShort tail_lines lines in
    let fresh = keep-AreShort tail_lines (λ l. not (mem_text l head)) tail last in
    elim (Bool-cases (leb (length lines) join_threshold_lines)) [
      | inl few ↦ rw few (
          length-all (codes " ⏎ ") (head ++ new_lines head tail) refl
            (append-AreShort head_lines tail_lines head (new_lines head tail) first fresh))
      | inr many ↦ rw many (
          length-both (codes " ⏎ ") _ head tail refl (length-gap (is_empty head || is_empty tail))
            first last)
    ]
