-- ===== src/Base/Strings.antt =====
-- Text as a list of code points, with Python's operations on it. `is_space` is Python's `isspace`
-- on every code point; digits and letter case are those of ASCII, and `lower` leaves every other
-- code point as it is.
use Prim.Native.Nat.{ℕ, zero, suc, ◌+◌, ◌/◌, ◌%◌, ◌≤◌, ◌<◌}
use Prim.Native.Char.{code}
use Prim.Native.String.{String}
use mathlib.Core.Path.{◌≡◌, ◌∙◌, refl, ap}
use mathlib.Core.Logic.{◌↔◌}
use mathlib.Core.Bool.{Bool, true, false, not, ◌&&◌, ◌||◌}
use mathlib.Core.List.{List, [], ◌∷◌, ◌++◌, map, reverse, reverse-append}
use native.Mathlib.Omega.{arith}
use native.Mathlib.Decide.{ℕ_discrete}
use super_opencode.Base.Tests.{ltb, leb, ◌==◌, if◌then◌else◌}
use super_opencode.Base.Lists.{length}

abbrev pub Text : Type 0
Text = List ℕ

-- a literal of the source
abbrev pub codes : String → Text
codes String.[] = []
codes (String.◌∷◌ c s) = code c ∷ codes s

abbrev pub is_space : ℕ → Bool
is_space c =
    (leb 9 c && leb c 13)
    || (leb 28 c && leb c 32)
    || c == 0x85
    || c == 0xa0
    || c == 0x1680
    || (leb 0x2000 c && leb c 0x200a)
    || c == 0x2028
    || c == 0x2029
    || c == 0x202f
    || c == 0x205f
    || c == 0x3000

abbrev pub is_digit : ℕ → Bool
is_digit c = leb 48 c && leb c 57

abbrev pub is_lower : ℕ → Bool
is_lower c = leb 97 c && leb c 122

abbrev pub is_upper : ℕ → Bool
is_upper c = leb 65 c && leb c 90

abbrev pub to_lower : ℕ → ℕ
to_lower c = if is_upper c then c + 32 else c

pub to_lower_idem : (c : ℕ) → to_lower (to_lower c) ≡ to_lower c
to_lower_idem c = ground arith

abbrev pub lower : Text → Text
lower = map to_lower

unfoldable pub text_eq : Text → Text → Bool
text_eq [] [] = true
text_eq [] (d ∷ t) = false
text_eq (c ∷ s) [] = false
text_eq (c ∷ s) (d ∷ t) = c == d && text_eq s t

pub text_eq_refl : (s : Text) → text_eq s s ≡ true
unfolding text_eq
text_eq_refl [] = refl
text_eq_refl (c ∷ s) = ground (arith, text_eq_refl s)

text_eq→ : (s t : Text) → text_eq s t ≡ true → s ≡ t
unfolding text_eq
text_eq→ [] [] h = refl
text_eq→ [] (d ∷ t) h = cc
text_eq→ (c ∷ s) [] h = cc
text_eq→ (c ∷ s) (d ∷ t) h = ground (arith, text_eq→ s t)

pub text_eq_iff : (s t : Text) → (text_eq s t ≡ true) ↔ (s ≡ t)
text_eq_iff s t = (text_eq→ s t, λ e. rw e (text_eq_refl t))

pub text_eq_sym : (s t : Text) → text_eq s t ≡ text_eq t s
text_eq_sym s t = ground (arith, text_eq_iff s t, text_eq_iff t s)

pub Text-discrete : Discrete Text
Text-discrete = hlevel ℕ_discrete

-- `s in ts`
unfoldable pub mem_text : Text → List Text → Bool
mem_text s [] = false
mem_text s (t ∷ ts) = text_eq s t || mem_text s ts

pub mem_text-append :
    (k : Text) (xs ys : List Text) → mem_text k (xs ++ ys) ≡ (mem_text k xs || mem_text k ys)
unfolding mem_text
mem_text-append k [] ys = refl
mem_text-append k (x ∷ xs) ys = ground (arith, mem_text-append k xs ys)

pub mem_text-reverse : (k : Text) (xs : List Text) → mem_text k (reverse xs) ≡ mem_text k xs
unfolding mem_text
mem_text-reverse k [] = refl
mem_text-reverse k (x ∷ xs) =
    ap (mem_text k) (reverse-append (x ∷ []) xs)
    ∙ mem_text-append k (reverse xs) (x ∷ [])
    ∙ ground (arith, mem_text-reverse k xs)

unfoldable pub drop_spaces : Text → Text
drop_spaces [] = []
drop_spaces (c ∷ s) = if is_space c then drop_spaces s else c ∷ s

-- `s.strip()`
unfoldable pub strip : Text → Text
unfolding drop_spaces
strip s = reverse (drop_spaces (reverse (drop_spaces s)))

unfoldable pub rstrip : Text → Text
unfolding drop_spaces
rstrip s = reverse (drop_spaces (reverse s))

unfoldable pub starts_with : Text → Text → Bool
starts_with s [] = true
starts_with [] (p ∷ ps) = false
starts_with (c ∷ s) (p ∷ ps) = c == p && starts_with s ps

-- `part in s`
unfoldable pub contains : Text → Text → Bool
unfolding starts_with
contains part [] = starts_with [] part
contains part (c ∷ s) = starts_with (c ∷ s) part || contains part s

-- `s.splitlines()` and the lines of a text file: `line` is the line being read, reversed; `cr` tells
-- that the character before is a carriage return
abbrev pub is_break : ℕ → Bool
is_break c =
    (leb 10 c && leb c 13) || (leb 28 c && leb c 30) || c == 0x85 || c == 0x2028 || c == 0x2029

abbrev pub is_newline : ℕ → Bool
is_newline c = c == 10 || c == 13

unfoldable pub lines_from : (ℕ → Bool) → Text → Bool → Text → List Text
lines_from ends [] cr [] = []
lines_from ends (l ∷ ls) cr [] = reverse (l ∷ ls) ∷ []
lines_from ends line cr (c ∷ s) =
    let rest = lines_from ends (if ends c then [] else c ∷ line) (c == 13) s in
    if ends c && not (c == 10 && cr) then reverse line ∷ rest else rest

unfoldable pub split_lines : Text → List Text
unfolding lines_from
split_lines = lines_from is_break [] false

unfoldable pub file_lines : Text → List Text
unfolding lines_from
file_lines = lines_from is_newline [] false

-- `s.split()`: `word` is the word being read, reversed
words_from : Text → Text → List Text
words_from [] [] = []
words_from (w ∷ ws) [] = reverse (w ∷ ws) ∷ []
words_from [] (c ∷ s) = words_from (if is_space c then [] else c ∷ []) s
words_from (w ∷ ws) (c ∷ s) =
    let next = words_from (c ∷ w ∷ ws) s in
    let rest = words_from [] s in if is_space c then reverse (w ∷ ws) ∷ rest else next

unfoldable pub split_words : Text → List Text
unfolding words_from
split_words = words_from []

-- `sep.join(ts)`
unfoldable pub join : Text → List Text → Text
join sep [] = []
join sep (t ∷ []) = t
join sep (t ∷ u ∷ ts) = t ++ sep ++ join sep (u ∷ ts)

-- `str(n)`, on fuel above `n`
show_digits : ℕ → ℕ → Text → Text
show_digits zero n acc = acc
show_digits (suc f) n acc =
    let rest = show_digits f (n / 10) ((n % 10 + 48) ∷ acc) in
    if ltb n 10 then (n + 48) ∷ acc else rest

unfoldable pub show_nat : ℕ → Text
unfolding show_digits
show_nat n = show_digits (suc n) n []

show_digits-length : (f n : ℕ) (acc : Text) → length acc ≤ length (show_digits f n acc)
unfolding show_digits
show_digits-length zero n acc = omega arith
show_digits-length (suc f) n acc =
    ground (arith, show_digits-length f (n / 10) ((n % 10 + 48) ∷ acc))

pub show_nat_pos : (n : ℕ) → 0 < length (show_nat n)
unfolding show_nat
show_nat_pos n = ground (arith, show_digits-length n (n / 10) ((n % 10 + 48) ∷ []))
