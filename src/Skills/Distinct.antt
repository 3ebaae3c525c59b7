-- ===== src/Skills/Distinct.antt =====
-- supervisor/core/skill_bank.py: the order of the resident skills, whose names are distinct.
use super_opencode.Base.{
  ◌≡◌, refl, arith, ap, ◌+◌, Bool, true, false, not, ◌&&◌, none, some, List, [], ◌∷◌, ◌++◌, all,
  keep, length, length-append, text_eq, text_eq_sym, Text, Option-cases, Bool-cases, subst, inl,
  inr, text_eq_iff,
}
use super_opencode.Skills.{Skill}
use super_opencode.Skills.Evict.{total_chars, longest_end}
use super_opencode.Skills.Queue.{find_skill, has_skill, move_to_end, append_found}

unfoldable pub distinct : List Skill → Bool
distinct [] = true
distinct (s ∷ ss) = not (has_skill s.name ss) && distinct ss

abbrev is_other : Text → Skill → Bool
is_other name s = not (text_eq s.name name)

pub has_skill-append :
    (n : Text) (ss : List Skill) (t : Skill) → has_skill n (ss ++ t ∷ []) ≡ has_skill n (t ∷ ss)
has_skill-append n [] t = refl
has_skill-append n (s ∷ ss) t = ground (arith, has_skill-append n ss t)

pub distinct-append :
    (ss : List Skill) (t : Skill)
    → distinct (ss ++ t ∷ []) ≡ not (has_skill t.name ss) && distinct ss
unfolding distinct
distinct-append [] t = refl
distinct-append (s ∷ ss) t =
    ground (arith, distinct-append ss t, has_skill-append s.name ss t, text_eq_sym s.name t.name)

has_skill-keep :
    (n : Text) (p : Skill → Bool) (ss : List Skill)
    → has_skill n ss ≡ false
    → has_skill n (keep p ss) ≡ false
has_skill-keep n p [] h = refl
has_skill-keep n p (s ∷ ss) h = ground (arith, has_skill-keep n p ss)

distinct-keep :
    (p : Skill → Bool) (ss : List Skill) → distinct ss ≡ true → distinct (keep p ss) ≡ true
unfolding distinct
distinct-keep p [] h = refl
distinct-keep p (s ∷ ss) h = ground (arith, distinct-keep p ss, has_skill-keep s.name p ss)

gone : (n : Text) (ss : List Skill) → has_skill n (keep (is_other n) ss) ≡ false
gone n [] = refl
gone n (s ∷ ss) = ground (arith, gone n ss)

keep_all : (n : Text) (ss : List Skill) → has_skill n ss ≡ false → keep (is_other n) ss ≡ ss
keep_all n [] h = refl
keep_all n (s ∷ ss) h = ground (arith, keep_all n ss)

pub find_skill-name :
    (n : Text) (ss : List Skill) (s : Skill) → find_skill n ss ≡ some s → text_eq s.name n ≡ true
unfolding find_skill
find_skill-name n [] s h = cc
find_skill-name n (t ∷ ss) s h = ground (arith, find_skill-name n ss s)

pub find_skill-all :
    (p : Skill → Bool) (n : Text) (ss : List Skill) (s : Skill)
    → all p ss ≡ true
    → find_skill n ss ≡ some s
    → p s ≡ true
unfolding find_skill
find_skill-all p n [] s a h = cc
find_skill-all p n (t ∷ ss) s a h = ground (arith, find_skill-all p n ss s)

pub not_found : (n : Text) (ss : List Skill) → find_skill n ss ≡ none → has_skill n ss ≡ false
unfolding find_skill
not_found n [] h = refl
not_found n (s ∷ ss) h = ground (arith, not_found n ss)

pub all-append :
    (p : Skill → Bool) (ss : List Skill) (t : Skill) → all p (ss ++ t ∷ []) ≡ all p ss && p t
all-append p [] t = ground arith
all-append p (s ∷ ss) t = ground (arith, all-append p ss t)

all-keep : (p q : Skill → Bool) (ss : List Skill) → all p ss ≡ true → all p (keep q ss) ≡ true
all-keep p q [] h = refl
all-keep p q (s ∷ ss) h = ground (arith, all-keep p q ss)

pub all-longest_end :
    (p : Skill → Bool) (test : List Skill → Bool) (ss : List Skill)
    → all p ss ≡ true
    → all p (longest_end test ss) ≡ true
unfolding longest_end
all-longest_end p test [] h = refl
all-longest_end p test (s ∷ ss) h = ground (arith, all-longest_end p test ss)

pub distinct-longest_end :
    (test : List Skill → Bool) (ss : List Skill)
    → distinct ss ≡ true
    → distinct (longest_end test ss) ≡ true
unfolding longest_end distinct
distinct-longest_end test [] h = refl
distinct-longest_end test (s ∷ ss) h = ground (arith, distinct-longest_end test ss)

total_chars-append :
    (ss : List Skill) (t : Skill) → total_chars (ss ++ t ∷ []) ≡ total_chars ss + length t.body
unfolding total_chars
total_chars-append [] t = omega arith
total_chars-append (s ∷ ss) t = omega (arith, total_chars-append ss t)

record Sizes (n : Text) (ss : List Skill) (t : Skill) : Type 0 where
  count : length (keep (is_other n) ss) + 1 ≡ length ss
  chars : total_chars (keep (is_other n) ss) + length t.body ≡ total_chars ss

first-Sizes :
    (n : Text) (s : Skill) (ss : List Skill)
    → text_eq s.name n ≡ true
    → has_skill n ss ≡ false
    → Sizes n (s ∷ ss) s
unfolding total_chars
first-Sizes n s ss e h = record {
  count = ground (arith, e, ap length (keep_all n ss h));
  chars = ground (arith, e, ap total_chars (keep_all n ss h));
}

later-Sizes :
    (n : Text) (s : Skill) (ss : List Skill) (t : Skill)
    → text_eq s.name n ≡ false
    → Sizes n ss t
    → Sizes n (s ∷ ss) t
unfolding total_chars
later-Sizes n s ss t e z = record {
  count = ground (arith, e, z.count);
  chars = ground (arith, e, z.chars);
}

unique :
    (n : Text) (s : Skill) (ss : List Skill)
    → distinct (s ∷ ss) ≡ true
    → text_eq s.name n ≡ true
    → has_skill n ss ≡ false
unfolding distinct
unique n s ss d e = ground (arith, d, ap (λ m. has_skill m ss) ((text_eq_iff s.name n).0 e))

keep-Sizes :
    (n : Text) (ss : List Skill) (t : Skill)
    → distinct ss ≡ true
    → find_skill n ss ≡ some t
    → Sizes n ss t
unfolding distinct find_skill total_chars
keep-Sizes n [] t d h = cc
keep-Sizes n (s ∷ ss) t d h = elim (Bool-cases (text_eq s.name n)) [
  | inl e ↦
      subst (λ u. Sizes n (s ∷ ss) u) (ground (arith, h, e))
        (first-Sizes n s ss e (unique n s ss d e))
  | inr e ↦ later-Sizes n s ss t e (keep-Sizes n ss t (ground (arith, d)) (ground (arith, h, e)))
]

-- what moving a key to the end leaves as it was
pub record IsMoved (p : Skill → Bool) (ss ts : List Skill) : Type 0 where
  pub same_count : length ts ≡ length ss
  pub same_chars : total_chars ts ≡ total_chars ss
  pub still_distinct : distinct ts ≡ true
  pub still_all : all p ts ≡ true

module _ (p : Skill → Bool) (n : Text) (ss : List Skill) (d : distinct ss ≡ true)
    (a : all p ss ≡ true) where
  move_found :
      (t : Skill) → find_skill n ss ≡ some t → IsMoved p ss (keep (is_other n) ss ++ t ∷ [])
  move_found t h =
      let z = keep-Sizes n ss t d h in
      record {
        same_count = omega (arith, length-append (keep (is_other n) ss) (t ∷ []), z.count);
        same_chars = omega (arith, total_chars-append (keep (is_other n) ss) t, z.chars);
        still_distinct = ground (
          arith,
          distinct-append (keep (is_other n) ss) t,
          distinct-keep (is_other n) ss d,
          gone n ss,
          (text_eq_iff t.name n).0 (find_skill-name n ss t h),
        );
        still_all = ground (
          arith,
          all-append p (keep (is_other n) ss) t,
          all-keep p (is_other n) ss a,
          find_skill-all p n ss t a h,
        );
      }

  -- A key that is not there leaves the list as it is.
  pub move_to_end-IsMoved : IsMoved p ss (move_to_end n ss)
  unfolding move_to_end append_found
  move_to_end-IsMoved = elim (Option-cases (find_skill n ss)) [
    | inl e ↦ rw e (
        rw (keep_all n ss (not_found n ss e))
          (record { same_count = refl; same_chars = refl; still_distinct = d; still_all = a }))
    | inr (t, e) ↦ rw e (move_found t e)
  ]
