-- ===== src/Skills/Discovered.antt =====
-- supervisor/core/skill_bank.py: the skills that a bank discovers.
use super_opencode.Base.{
  ◌≡◌, refl, arith, ℕ, ◌+◌, Bool, true, List, [], ◌∷◌, all, length, length-append, length-take,
  take, is_empty, strip, lower, leb, Text, Bool-cases, inl, inr,
}
use super_opencode.Skills.{
  Skill, SkillFile, Directory, is_short, truncation_note, cut_body, parse_skill_file, put_skill,
  put_parsed, discover_files, discover_from, discover, is_valid_name,
}

cut_body-short :
    (budget : ℕ) (body : Text)
    → leb (length (cut_body budget body)) (budget + length truncation_note) ≡ true
unfolding cut_body
cut_body-short budget body =
    ground (arith, length-append (take budget body) truncation_note, length-take budget body)

module _ (p : Skill → Bool) where
  put_skill-all :
      (s : Skill) (ss : List Skill) → p s ≡ true → all p ss ≡ true → all p (put_skill s ss) ≡ true
  unfolding put_skill
  put_skill-all s [] ps a = ground (arith, ps)
  put_skill-all s (t ∷ ss) ps a = ground (arith, put_skill-all s ss ps)

put_parsed-short :
    (budget : ℕ) (raw name label : Text) (found : List Skill)
    → all (is_short budget) found ≡ true
    → all (is_short budget) (put_parsed (parse_skill_file budget raw name label) found) ≡ true
unfolding parse_skill_file put_parsed
put_parsed-short budget raw name label found a = elim (Bool-cases (is_empty (strip raw))) [
  | inl e ↦ rw e a
  | inr e ↦ rw e (put_skill-all (is_short budget) _ found (cut_body-short budget _) a)
]

discover_files-short :
    (budget : ℕ) (label : Text) (fs : List SkillFile) (found : List Skill)
    → all (is_short budget) found ≡ true
    → all (is_short budget) (discover_files budget label fs found) ≡ true
unfolding discover_files
discover_files-short budget label [] found a = a
discover_files-short budget label (f ∷ fs) found a =
    elim (Bool-cases (is_valid_name (lower f.stem))) [
      | inl e ↦ rw e (
          discover_files-short budget label fs _
            (put_parsed-short budget f.raw (lower f.stem) label found a))
      | inr e ↦ rw e (discover_files-short budget label fs found a)
    ]

discover_from-short :
    (budget : ℕ) (ds : List Directory) (found : List Skill)
    → all (is_short budget) found ≡ true
    → all (is_short budget) (discover_from budget ds found) ≡ true
unfolding discover_from
discover_from-short budget [] found a = a
discover_from-short budget (d ∷ ds) found a =
    discover_from-short budget ds _ (discover_files-short budget d.label d.files found a)

pub discover-short :
    (budget : ℕ) (ds : List Directory) → all (is_short budget) (discover budget ds) ≡ true
unfolding discover
discover-short budget ds = discover_from-short budget ds [] refl
