-- ===== src/Decision/Choice.antt =====
-- supervisor/core/decision_service.py: the choice with the largest probability.
use super_opencode.Base.{
  ℕ, ◌≤◌, ◌≡◌, refl, true, Option, none, some, List, [], ◌∷◌, arith, inl, inr, Bool-cases, ltb,
  is_some, ◌≢◌, subst, if◌then◌else◌, All, Text,
}

-- Labels with their probabilities, in the order of the answer.
abbrev pub Table : Type 0
Table = List (Text × ℕ)

-- `max(table, key=table.get)` with the first entry as the best so far: the first of the largest
unfoldable pub best_of : Text × ℕ → Table → Text × ℕ
best_of best [] = best
best_of best (entry ∷ table) = best_of (if ltb best.1 entry.1 then entry else best) table

pub record ChoiceDecision : Type 0 where
  pub action : Text
  pub probability : ℕ
  pub probabilities : Table

-- `_choice` on the probabilities of one answer; none when the block is missing or empty
unfoldable pub choice : Option Table → Option ChoiceDecision
choice none = none
choice (some []) = none
choice (some (entry ∷ table)) =
    let best = best_of entry table in
    some (record { action = best.0; probability = best.1; probabilities = entry ∷ table })

-- An entry of the table.
pub data IsEntry (e : Text × ℕ) : Table → Type 0 where
  here : {t : Table} → IsEntry e (e ∷ t)
  there : {f : Text × ℕ} {t : Table} → IsEntry e t → IsEntry e (f ∷ t)

better_of :
    (best entry : Text × ℕ)
    → let winner : Text × ℕ = if ltb best.1 entry.1 then entry else best in
      (best.1 ≤ winner.1) × (entry.1 ≤ winner.1)
better_of best entry = elim (Bool-cases (ltb best.1 entry.1)) [
  | inl more ↦ rw more (ground arith, omega arith)
  | inr less ↦ rw less (omega arith, ground arith)
]

pub best_of_max :
    (best : Text × ℕ) (table : Table)
    → (best.1 ≤ (best_of best table).1) × All (λ e. e.1 ≤ (best_of best table).1) table
unfolding best_of
best_of_max best [] = (omega arith, tt)
best_of_max best (entry ∷ table) =
    let (b, e) = better_of best entry in
    let (grows, rest) = best_of_max (if ltb best.1 entry.1 then entry else best) table in
    (omega (arith, b, grows), (omega (arith, e, grows), rest))

-- `best_of` is the best so far or an entry of the table.
pub best_of-IsEntry :
    (best : Text × ℕ) (table : Table) → IsEntry (best_of best table) (best ∷ table)
unfolding best_of
best_of-IsEntry best [] = here
best_of-IsEntry best (entry ∷ table) = elim (Bool-cases (ltb best.1 entry.1)) [
  | inl more ↦ rw more (there (best_of-IsEntry entry table))
  | inr less ↦ rw less (skip (best_of-IsEntry best table))
]
  where
    skip : {b e : Text × ℕ} {t : Table} → IsEntry b (best ∷ t) → IsEntry b (best ∷ e ∷ t)
    skip here = here
    skip (there i) = there (there i)

-- A choice that is made from an answer is an entry of the answer's table, no entry of the table has a
-- larger probability, and it is made from every table that is not empty.
pub choice_is_maximum :
    (table : Table)
    → (table ≢ [] → is_some (choice (some table)) ≡ true)
      × ((d : ChoiceDecision)
          → choice (some table) ≡ some d
          → IsEntry (d.action, d.probability) table × All (λ e. e.1 ≤ d.probability) table)
choice_is_maximum [] = (λ h. absurd (h refl), λ d h. unfold choice in cc)
choice_is_maximum (entry ∷ table) =
    (λ h. unfold choice in refl, λ d h. of_best d (unfold choice in cc h))
  where
    of_best :
        (d : ChoiceDecision)
        → record {
          action = (best_of entry table).0;
          probability = (best_of entry table).1;
          probabilities = entry ∷ table;
        }
          ≡ d
        → IsEntry (d.action, d.probability) (entry ∷ table)
          × All (λ e. e.1 ≤ d.probability) (entry ∷ table)
    of_best d e =
        subst
          (λ (c : ChoiceDecision).
            IsEntry (c.action, c.probability) (entry ∷ table)
            × All (λ x. x.1 ≤ c.probability) (entry ∷ table))
          e (best_of-IsEntry entry table, best_of_max entry table)
