-- ===== src/Protocols/Rubric/Answered.antt =====
-- supervisor/protocols/gate_rubric.py: when a verdict has no violation.
use super_opencode.Base.{
  suc, inl, inr, Bool-cases, ap, ◌∙◌, ◌≡◌, refl, arith, ℕ, Bool, not, ◌&&◌, ◌||◌, List, [], ◌∷◌,
  ◌++◌, map, keep, all, is_empty, take, strip, Text, codes,
}
use super_opencode.Protocols.Gates.{Gate}
use super_opencode.Protocols.Check.{Workspace, is_pass, GateEvaluation}
use super_opencode.Decision.Service.{Claim}
use super_opencode.Protocols.Rubric.Violations.{
  is_claimed, is_claimed_met, is_unknown, unknown, cited_paths, path_exists, first_missing,
  missing_files, is_contradicted, contradiction, not_adjudicated, fabricated, unadjudicated,
  heading, verdict_violations,
}

is_empty-append : (xs ys : List Text) → is_empty (xs ++ ys) ≡ (is_empty xs && is_empty ys)
is_empty-append [] ys = refl
is_empty-append (x ∷ xs) ys = refl

is_empty-heading :
    (title sep : Text) (ts : List Text) → is_empty (heading title sep ts) ≡ is_empty ts
is_empty-heading title sep [] = refl
is_empty-heading title sep (t ∷ ts) = refl

is_empty-first_missing :
    (ws : Workspace) (ts : List Text) → is_empty (first_missing ws ts) ≡ all (path_exists ws) ts
unfolding first_missing
is_empty-first_missing ws [] = refl
is_empty-first_missing ws (t ∷ ts) = ground (arith, is_empty-first_missing ws ts)

-- whether the files that a criterion's evidence cites exist, where it is claimed to be met
unfoldable pub is_evidenced : Workspace → Claim → Bool
is_evidenced ws c = not c.met || all (path_exists ws) (cited_paths c.evidence)

is_empty-missing_files :
    (ws : Workspace) (cs : List Claim) → is_empty (missing_files ws cs) ≡ all (is_evidenced ws) cs
unfolding missing_files is_evidenced
is_empty-missing_files ws [] = refl
is_empty-missing_files ws (c ∷ cs) = ground (
  arith,
  is_empty-missing_files ws cs,
  is_empty-first_missing ws (cited_paths c.evidence),
  is_empty-append (first_missing ws (cited_paths c.evidence)) (missing_files ws cs),
)

is_empty-listed :
    {A : Type 0} (f : A → Text) (p : A → Bool) (xs : List A)
    → is_empty (map f (keep p xs)) ≡ all (λ x. not (p x)) xs
is_empty-listed f p [] = refl
is_empty-listed f p (x ∷ xs) = ground (arith, is_empty-listed f p xs)

is_empty-take : (n : ℕ) (xs : List Text) → is_empty (take (suc n) xs) ≡ is_empty xs
is_empty-take n [] = refl
is_empty-take n (x ∷ xs) = refl

four :
    (a b c d : List Text)
    → is_empty (a ++ b ++ c ++ d) ≡ (is_empty a && (is_empty b && (is_empty c && is_empty d)))
four a b c d =
    ground (arith, is_empty-append (a ++ b ++ c) d, is_empty-append (a ++ b) c, is_empty-append a b)

join_four :
    {a b c d a' b' c' d' : Bool}
    → a ≡ a'
    → b ≡ b'
    → c ≡ c'
    → d ≡ d'
    → (a && (b && (c && d))) ≡ (a' && (b' && (c' && d')))
join_four h k l m = ground (arith, h, k, l, m)

-- what a verdict has to say about an evaluation
abbrev pub is_answered : List Gate → List Claim → GateEvaluation → Bool
is_answered gates claims e =
    is_claimed gates claims e.name && (not (is_claimed_met claims e.name) || is_pass e.outcome)

answers :
    (gates : List Gate) (claims : List Claim) (evs : List GateEvaluation)
    → (all (λ e. not (is_contradicted gates claims e)) evs
        && all (λ (e : GateEvaluation). not (not (is_claimed gates claims e.name))) evs)
      ≡ all (is_answered gates claims) evs
answers gates claims [] = refl
answers gates claims (e ∷ evs) = ground (arith, answers gates claims evs)

-- A verdict on a rubric raises no problem exactly where each criterion with a text names a gate, the files
-- that it cites for a criterion it calls met exist, and each machine gate is named and not called met
-- where its measurement does not pass.
pub sound_iff_answered :
    (ws : Workspace) (claims : List Claim) (gates : List Gate) (evs : List GateEvaluation)
    → is_empty (verdict_violations ws claims gates evs) ≡ (
        is_empty gates
        || (all (λ c. not (is_unknown gates c)) claims
            && (all (is_evidenced ws) claims && all (is_answered gates claims) evs)))
unfolding verdict_violations unknown not_adjudicated
sound_iff_answered ws claims gates evs = elim (Bool-cases (is_empty gates)) [
  | inl none_of ↦ ground (arith, none_of)
  | inr some_of ↦ rw some_of (
      four _ (missing_files ws claims) (map contradiction (keep (is_contradicted gates claims) evs))
        _
      ∙ join_four
          (is_empty-heading fabricated (codes "; ") (take 3 (unknown gates claims))
            ∙ is_empty-take 2 (unknown gates claims)
            ∙ is_empty-listed (λ (c : Claim). take 60 (strip c.name)) (is_unknown gates) claims)
          (is_empty-missing_files ws claims)
          (is_empty-listed contradiction (is_contradicted gates claims) evs)
          (is_empty-heading unadjudicated (codes ", ") (not_adjudicated gates claims evs)
            ∙ is_empty-listed (λ (e : GateEvaluation). e.name)
                (λ e. not (is_claimed gates claims e.name)) evs)
      ∙ ap (λ b. all (λ c. not (is_unknown gates c)) claims && (all (is_evidenced ws) claims && b))
          (answers gates claims evs))
]
