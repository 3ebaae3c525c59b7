-- ===== src/Base/Lines.antt =====
-- The lines of a text whose lines end in newlines.
use Prim.Native.Nat.{ℕ, zero, suc, ◌-◌, ◌≤◌, ◌<◌}
use mathlib.Core.Path.{◌≡◌, ◌∙◌, refl, ap}
use mathlib.Core.Logic.{inl, inr}
use mathlib.Core.Bool.{Bool, true, false, not}
use mathlib.Core.List.{List, [], ◌∷◌, ◌++◌, reverse, reverse-append, append_assoc, append-nil}
use native.Mathlib.Omega.{arith}
use super_opencode.Base.Tests.{ltb, Bool-cases, ltb→lt}
use super_opencode.Base.Lists.{length, drop, all, length-append}
use super_opencode.Base.Strings.{Text, is_break, is_newline, lines_from, split_lines, file_lines}

-- `"".join(line + "\n" for line in lines)`
unfoldable pub render : List Text → Text
render [] = []
render (l ∷ ls) = l ++ 10 ∷ render ls

-- a line without a line break
abbrev pub is_plain : Text → Bool
is_plain l = all (λ c. not (is_break c)) l

lines_from-plain :
    (ends : ℕ → Bool) (acc l s : Text)
    → all (λ c. not (ends c)) l ≡ true
    → ends 10 ≡ true
    → is_plain l ≡ true
    → lines_from ends acc false (l ++ 10 ∷ s) ≡ (reverse acc ++ l) ∷ lines_from ends [] false s
unfolding lines_from
lines_from-plain ends acc [] s quiet ten plain = ground (arith, ten, append-nil (reverse acc))
lines_from-plain ends acc (c ∷ l) s quiet ten plain =
    let rest =
      lines_from-plain ends (c ∷ acc) l s (ground (arith, quiet)) ten (ground (arith, plain)) in
    let turned : reverse (c ∷ acc) ++ l ≡ reverse acc ++ c ∷ l =
      ap (λ r. r ++ l) (reverse-append (c ∷ []) acc) ∙ append_assoc (reverse acc) (c ∷ []) l in
    ground (arith, rest, turned, quiet, plain)

quiet_newline : (l : Text) → is_plain l ≡ true → all (λ c. not (is_newline c)) l ≡ true
quiet_newline [] h = refl
quiet_newline (c ∷ l) h = ground (arith, quiet_newline l, h)

pub split_lines-plain :
    (l s : Text) → is_plain l ≡ true → split_lines (l ++ 10 ∷ s) ≡ l ∷ split_lines s
unfolding split_lines
split_lines-plain l s h = lines_from-plain is_break [] l s h refl h

pub split_lines-render : (ls : List Text) → all is_plain ls ≡ true → split_lines (render ls) ≡ ls
unfolding render split_lines lines_from
split_lines-render [] h = refl
split_lines-render (l ∷ ls) h =
    split_lines-plain l (render ls) (ground (arith, h))
    ∙ ap (λ r. l ∷ r) (split_lines-render ls (ground (arith, h)))

pub file_lines-render : (ls : List Text) → all is_plain ls ≡ true → file_lines (render ls) ≡ ls
unfolding render file_lines lines_from
file_lines-render [] h = refl
file_lines-render (l ∷ ls) h =
    let plain : is_plain l ≡ true = ground (arith, h) in
    lines_from-plain is_newline [] l (render ls) (quiet_newline l plain) refl plain
    ∙ ap (λ r. l ∷ r) (file_lines-render ls (ground (arith, h)))

-- A proper end of the text of some lines: the end of one of them, and the lines behind it.
pub record Cut (ls : List Text) (s : Text) : Type 0 where
  pub before : List Text
  pub cut : Text
  pub fragment : Text
  pub behind : List Text
  pub lines : ls ≡ before ++ cut ∷ behind
  pub text : s ≡ fragment ++ 10 ∷ render behind
  pub plain : is_plain fragment ≡ true

drop-plain : (n : ℕ) (l : Text) → is_plain l ≡ true → is_plain (drop n l) ≡ true
drop-plain zero l h = h
drop-plain (suc n) [] h = h
drop-plain (suc n) (c ∷ l) h = drop-plain n l (ground (arith, h))

drop-within : (n : ℕ) (l s : Text) → n ≤ length l → drop n (l ++ s) ≡ drop n l ++ s
drop-within zero l s h = refl
drop-within (suc n) [] s h = ground (arith, h)
drop-within (suc n) (c ∷ l) s h = drop-within n l s (omega (arith, h))

drop-past : (n c : ℕ) (l s : Text) → length l < n → drop n (l ++ c ∷ s) ≡ drop (n - length l - 1) s
drop-past zero c l s h = ground (arith, h)
drop-past (suc n) c [] s h = ap (λ k. drop k s) (omega arith)
drop-past (suc n) c (d ∷ l) s h =
    drop-past n c l s (omega (arith, h)) ∙ ap (λ k. drop k s) (omega arith)

pub drop-Cut :
    (n : ℕ) (ls : List Text)
    → all is_plain ls ≡ true
    → n < length (render ls)
    → Cut ls (drop n (render ls))
unfolding render
drop-Cut n [] h inside = ground (arith, inside)
drop-Cut n (l ∷ ls) h inside = elim (Bool-cases (ltb (length l) n)) [
  | inl past ↦
      let rest =
        drop-Cut (n - length l - 1) ls (ground (arith, h))
          (omega (arith, inside, length-append l (10 ∷ render ls), ltb→lt (length l) n past)) in
      record {
        before = l ∷ rest.before;
        cut = rest.cut;
        fragment = rest.fragment;
        behind = rest.behind;
        lines = ap (λ r. l ∷ r) rest.lines;
        text = drop-past n 10 l (render ls) (ltb→lt (length l) n past) ∙ rest.text;
        plain = rest.plain;
      }
  | inr within ↦ record {
    before = [];
    cut = l;
    fragment = drop n l;
    behind = ls;
    lines = refl;
    text = drop-within n l (10 ∷ render ls) (ground (arith, within));
    plain = drop-plain n l (ground (arith, h));
  }
]
