-- ===== src/Goal/Progress.antt =====
-- supervisor/core/goal_progress.py: GoalProgressTracker. The match threshold is a percentage.
-- Scores are compared as exact fractions.
pub mod Attainment
mod Tests
use super_opencode.Base.{
  ℕ, zero, suc, ◌+◌, ◌*◌, Bool, true, false, not, ◌&&◌, ◌||◌, Option, none, some, List, [], ◌∷◌,
  ◌++◌, ltb, if◌then◌else◌, is_empty, is_some, any, count_if, length, Text, codes, text_eq, strip,
  show_nat,
}
use super_opencode.Monitoring.Tokens.{reaches}
use super_opencode.Goal.Criterion.{criterion_tokens, criterion_number, overlap}

-- An item of `criteria`: a plain text, or a judge's result.
pub data Item : Type 0 where
  plain : Text → Item
  judged : Text → Bool → Item

abbrev text_of : Item → Text
text_of (plain t) = strip t
text_of (judged t met) = strip t

abbrev met_of : Item → Bool
met_of (plain t) = false
met_of (judged t met) = met

unfoldable pub iter_criteria : List Item → List (Text × Bool)
iter_criteria [] = []
iter_criteria (c ∷ cs) =
    if is_empty (text_of c) then iter_criteria cs else (text_of c, met_of c) ∷ iter_criteria cs

pub record Obligation : Type 0 where
  pub number : Text
  pub tokens : List Text
  pub met : Bool

pub record ProgressSignal : Type 0 where
  pub progressed : Bool
  pub streak : ℕ
  pub detail : Text

pub record Tracker : Type 0 where
  pub match_threshold : ℕ
  pub obligations : List Obligation
  pub best_gates : Option ℕ
  pub streak : ℕ
  pub last_detail : Text

unfoldable pub satisfied : List Obligation → ℕ
satisfied = count_if (λ o. o.met)

unfoldable pub reset : Tracker → Tracker
reset t = record t { obligations = []; best_gates = none; streak = 0; last_detail = [] }

-- The first loop of `_match`: the same number. `i` is the index of the head.
unfoldable pub match_number : Text → ℕ → List Obligation → Option ℕ
match_number number i [] = none
match_number number i (o ∷ os) =
    if text_eq o.number number then some i else match_number number (suc i) os

-- `number and known.number and known.number != number`
abbrev differs : Text → Obligation → Bool
differs number o = not (is_empty number) && not (is_empty o.number) && not (text_eq o.number number)

abbrev beats : ℕ × ℕ → ℕ × ℕ → Bool
beats (n, d) (m, e) = ltb (m * d) (n * e)

-- The second loop of `_match`: the best overlap at or over the threshold, and the first such.
unfoldable pub match_tokens :
    ℕ → Text → List Text → ℕ → ℕ × ℕ → Option ℕ → List Obligation → Option ℕ
match_tokens threshold number tokens i best found [] = found
match_tokens threshold number tokens i best found (o ∷ os) =
    let score = overlap tokens o.tokens in
    let better = not (differs number o) && reaches score threshold && beats score best in
    match_tokens threshold number tokens (suc i) (if better then score else best)
      (if better then some i else found) os

unfoldable pub match_obligation : ℕ → List Obligation → Text → List Text → Option ℕ
match_obligation threshold os number tokens =
    let by_tokens = match_tokens threshold number tokens 0 (0, 1) none os in
    if is_empty number
    then by_tokens
    else elim (match_number number 0 os) [ some i ↦ some i | none ↦ by_tokens ]

-- `known.met = True` at an index; the result tells whether it was unmet
unfoldable pub attain : ℕ → List Obligation → List Obligation × Bool
attain i [] = ([], false)
attain zero (o ∷ os) = (record o { met = true } ∷ os, not o.met)
attain (suc i) (o ∷ os) = let (os', changed) = attain i os in (o ∷ os', changed)

-- The variables of the loop of `_absorb_obligations`.
pub record Absorbed : Type 0 where
  pub known : List Obligation
  pub new_entries : List Obligation
  pub progressed : Bool

-- Two reworded copies of one new criterion are not both registered.
unfoldable pub register : ℕ → Absorbed → Text → List Text → Bool → Absorbed
register threshold a number tokens met =
    if any (λ o. reaches (overlap tokens o.tokens) threshold) a.new_entries then a else record a {
      new_entries = a.new_entries ++ record { number = number; tokens = tokens; met = met } ∷ [];
    }

-- One round of the loop.
unfoldable pub absorb : ℕ → Absorbed → Text × Bool → Absorbed
absorb threshold a (criterion, met) =
    let tokens = criterion_tokens criterion in
    let number = criterion_number criterion in
    if is_empty tokens then a else elim (match_obligation threshold a.known number tokens) [
      | none ↦ register threshold a number tokens met
      | some i ↦
          let (known, changed) = attain i a.known in
          if met then record a { known = known; progressed = a.progressed || changed } else a
    ]

unfoldable pub absorb_all : ℕ → Absorbed → List (Text × Bool) → Absorbed
absorb_all threshold a [] = a
absorb_all threshold a (c ∷ cs) = absorb_all threshold (absorb threshold a c) cs

-- `_absorb_obligations`: the registry and whether an obligation was newly satisfied
unfoldable pub absorb_obligations :
    ℕ → List Obligation → List (Text × Bool) → List Obligation × Bool
absorb_obligations threshold os criteria =
    let a =
      absorb_all threshold (record { known = os; new_entries = []; progressed = false }) criteria in
    (a.known ++ a.new_entries, a.progressed)

-- `passing_gates is not None and (best is None or passing > best)`
abbrev pub is_higher : Option ℕ → Option ℕ → Bool
is_higher none best = false
is_higher (some n) none = true
is_higher (some n) (some best) = ltb best n

-- the gates rose over a mark that was there
abbrev pub rose : Option ℕ → Option ℕ → Bool
rose gates best = is_some best && is_higher gates best

rise_note : Option ℕ → Option ℕ → Text
rise_note (some n) (some best) =
    codes "passing gates rose " ++ show_nat best ++ codes " -> " ++ show_nat n
rise_note _ _ = []

-- `record`, from the line that counts the known obligations
unfoldable pub record_pairs : Tracker → List (Text × Bool) → Option ℕ → Tracker × ProgressSignal
unfolding rise_note
record_pairs t pairs gates =
    let (os, attained) = absorb_obligations t.match_threshold t.obligations pairs in
    let t' = record t { obligations = os } in
    let progressed = attained || rose gates t.best_gates in
    let streak = if progressed then 0 else t.streak + 1 in
    let detail =
      if progressed
      then (if rose gates t.best_gates
          then rise_note gates t.best_gates
          else codes "a previously unmet obligation was satisfied")
      else t.last_detail in
    if is_empty t.obligations
    then (
      t',
      record { progressed = true; streak = 0; detail = codes "baseline criteria registered" },
    )
    else (
      record t' {
        best_gates = if is_higher gates t.best_gates then gates else t.best_gates;
        streak = streak;
        last_detail = detail;
      },
      record { progressed = progressed; streak = streak; detail = detail },
    )

unfoldable pub record_turn : Tracker → List Item → Option ℕ → Tracker × ProgressSignal
record_turn t criteria gates =
    let pairs = iter_criteria criteria in
    if is_empty pairs
    then (
      t,
      record {
        progressed = false;
        streak = t.streak;
        detail = codes "no structured criteria in this turn";
      },
    )
    else record_pairs t pairs gates
