-- ===== src/Protocols/Refs.antt =====
-- supervisor/protocols/gate_rubric.py: validate_refs, the references of gates to target items.
mod Tests
use super_opencode.Base.{
  ℕ, ◌≡◌, refl, Bool, true, false, not, ◌&&◌, ◌||◌, Option, none, some, List, [], ◌∷◌, ◌++◌, all,
  any, arith, leb, ◌==◌, ==_iff, if◌then◌else◌, is_empty, Text, codes, show_nat, Option-cases, inl,
  inr,
}
use super_opencode.Protocols.Gates.{Gate}

-- `1 <= ref <= target_count`
abbrev pub in_range : ℕ → ℕ → Bool
in_range count ref = leb 1 ref && leb ref count

-- The loop, with the references seen so far.
unfoldable pub problems_from : ℕ → List ℕ → List Gate → List Text
problems_from count seen [] = []
problems_from count seen (g ∷ gs) = elim g.ref [
  | none ↦ problems_from count seen gs
  | some ref ↦
      let fresh = in_range count ref && not (any (λ s. s == ref) seen) in
      let rest = problems_from count (if fresh then ref ∷ seen else seen) gs in
      if not (in_range count ref)
      then (g.name
          ++ (codes ": ref #"
              ++ (show_nat ref ++ (codes " outside TARGET items 1.." ++ show_nat count))))
        ∷ rest
      else if fresh
      then rest
      else (codes "duplicate ref #" ++ show_nat ref) ∷ rest
]

-- No target count, no problem.
unfoldable pub validate_refs : List Gate → Option ℕ → List Text
validate_refs gates none = []
validate_refs gates (some count) = problems_from count [] gates

unfoldable pub refs_of : List Gate → List ℕ
refs_of [] = []
refs_of (g ∷ gs) = elim g.ref [ none ↦ refs_of gs | some ref ↦ ref ∷ refs_of gs ]

unfoldable pub are_distinct : List ℕ → Bool
are_distinct [] = true
are_distinct (r ∷ rs) = not (any (λ s. s == r) rs) && are_distinct rs

-- Whether a reference of the list has been seen.
abbrev meets : List ℕ → List ℕ → Bool
meets seen rs = any (λ r. any (λ s. s == r) seen) rs

meets-cons :
    (r : ℕ) (seen rs : List ℕ) → meets (r ∷ seen) rs ≡ (any (λ s. s == r) rs || meets seen rs)
meets-cons r seen [] = refl
meets-cons r seen (s ∷ rs) = ground (arith, meets-cons r seen rs)

problems_from-empty :
    (count : ℕ) (seen : List ℕ) (gs : List Gate)
    → is_empty (problems_from count seen gs) ≡ (
        all (in_range count) (refs_of gs)
        && are_distinct (refs_of gs)
        && not (meets seen (refs_of gs)))
unfolding problems_from refs_of are_distinct
problems_from-empty count seen [] = refl
problems_from-empty count seen (g ∷ gs) = elim (Option-cases g.ref) [
  | inl missing ↦ ground (arith, missing, problems_from-empty count seen gs)
  | inr found ↦ ground (
    arith,
    found.1,
    problems_from-empty count seen gs,
    problems_from-empty count (found.0 ∷ seen) gs,
    meets-cons found.0 seen (refs_of gs),
  )
]

meets-nil : (rs : List ℕ) → meets [] rs ≡ false
meets-nil [] = refl
meets-nil (r ∷ rs) = meets-nil rs

-- The references of the gates raise no problem exactly where each of them is between 1 and the number
-- of target items and no two gates refer to the same item.
pub valid_iff_distinct :
    (gates : List Gate) (count : ℕ)
    → is_empty (validate_refs gates (some count))
      ≡ (all (in_range count) (refs_of gates) && are_distinct (refs_of gates))
unfolding validate_refs
valid_iff_distinct gates count =
    ground (arith, problems_from-empty count [] gates, meets-nil (refs_of gates))
