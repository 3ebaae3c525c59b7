-- ===== src/Goal/Progress/Attainment.antt =====
-- supervisor/core/goal_progress.py: what makes a turn count as progress.
use super_opencode.Base.{
  ℕ, zero, suc, ◌+◌, ◌≤◌, ◌<◌, ◌≡◌, ◌≢◌, ◌∙◌, refl, sym, ap, ◌⊎◌, inl, inr, Bool, true, false, ◌||◌,
  Option, some, List, [], ◌∷◌, ◌++◌, arith, is_empty, length, take, All, count_if-le-length,
  length-take, Text, Bool-cases, Option-cases,
}
use super_opencode.Goal.Criterion.{criterion_tokens, criterion_number}
use super_opencode.Goal.Progress.{
  Item, Obligation, Tracker, Absorbed, satisfied, attain, register, absorb, absorb_all,
  absorb_obligations, match_obligation, rose, record_pairs, record_turn, iter_criteria,
}

abbrev as_number : Bool → ℕ
as_number true = 1
as_number false = 0

satisfied-attain :
    (i : ℕ) (os : List Obligation)
    → satisfied (attain i os).0 ≡ satisfied os + as_number (attain i os).1
unfolding satisfied attain
satisfied-attain i [] = omega arith
satisfied-attain zero (o ∷ os) = ground arith
satisfied-attain (suc i) (o ∷ os) = ground (arith, satisfied-attain i os)

length-attain : (i : ℕ) (os : List Obligation) → length (attain i os).0 ≡ length os
unfolding attain
length-attain i [] = refl
length-attain zero (o ∷ os) = refl
length-attain (suc i) (o ∷ os) = ap suc (length-attain i os)

-- An attainment that changes nothing leaves the registry as it was.
attain-same : (i : ℕ) (os : List Obligation) → (attain i os).1 ≡ false → (attain i os).0 ≡ os
unfolding attain
attain-same i [] h = refl
attain-same zero (o ∷ os) h = ground arith
attain-same (suc i) (o ∷ os) h = ap (λ xs. o ∷ xs) (attain-same i os h)

-- What one criterion does to the known obligations.
record Sound (a a' : Absorbed) : Type 0 where
  counts : satisfied a.known + as_number a'.progressed ≤ satisfied a'.known + as_number a.progressed
  keeps : length a'.known ≡ length a.known
  idle : a'.progressed ≡ false → (a'.known ≡ a.known) × (a.progressed ≡ false)

Sound-same : (a a' : Absorbed) → a'.known ≡ a.known → a'.progressed ≡ a.progressed → Sound a a'
Sound-same a a' e f = record {
  counts = rw (e, f) (omega arith);
  keeps = rw e;
  idle = λ h. (e, sym f ∙ h);
}

Sound-attain :
    (a : Absorbed) (i : ℕ)
    → Sound a (record a {
      known = (attain i a.known).0;
      progressed = a.progressed || (attain i a.known).1;
    })
Sound-attain a i = record {
  counts = ground (arith, satisfied-attain i a.known);
  keeps = length-attain i a.known;
  idle = λ h. ground (arith, attain-same i a.known);
}

register-Sound :
    (threshold : ℕ) (a : Absorbed) (number : Text) (tokens : List Text) (met : Bool)
    → Sound a (register threshold a number tokens met)
register-Sound threshold a number tokens met =
    Sound-same a (register threshold a number tokens met) (unfold register in ground arith)
      (unfold register in ground arith)

-- `absorb` with its tokens and its match taken out.
absorb-matched :
    (threshold : ℕ) (a : Absorbed) (criterion : Text) (met : Bool) (i : ℕ)
    → is_empty (criterion_tokens criterion) ≡ false
    → match_obligation threshold a.known (criterion_number criterion) (criterion_tokens criterion)
      ≡ some i
    → Sound a (absorb threshold a (criterion, met))
unfolding absorb
absorb-matched threshold a criterion true i e m = rw (e, m) (Sound-attain a i)
absorb-matched threshold a criterion false i e m = rw (e, m) (Sound-same a a refl refl)

absorb-Sound : (threshold : ℕ) (a : Absorbed) (c : Text × Bool) → Sound a (absorb threshold a c)
unfolding absorb
absorb-Sound threshold a (criterion, met) =
    let tokens = criterion_tokens criterion in
    let number = criterion_number criterion in
    elim (Bool-cases (is_empty tokens)) [
      | inl e ↦ rw e (Sound-same a a refl refl)
      | inr e ↦ elim (Option-cases (match_obligation threshold a.known number tokens)) [
        | inl m ↦ rw (e, m) (register-Sound threshold a number tokens met)
        | inr (i, m) ↦ absorb-matched threshold a criterion met i e m
      ]
    ]

Sound-trans : {a b c : Absorbed} → Sound a b → Sound b c → Sound a c
Sound-trans s t = record {
  counts = omega (arith, s.counts, t.counts);
  keeps = t.keeps ∙ s.keeps;
  idle = λ h. ((t.idle h).0 ∙ (s.idle (t.idle h).1).0, (s.idle (t.idle h).1).1);
}

absorb_all-Sound :
    (threshold : ℕ) (cs : List (Text × Bool)) (a : Absorbed) → Sound a (absorb_all threshold a cs)
unfolding absorb_all
absorb_all-Sound threshold [] a = Sound-same a a refl refl
absorb_all-Sound threshold (c ∷ cs) a =
    Sound-trans (absorb-Sound threshold a c) (absorb_all-Sound threshold cs (absorb threshold a c))

take-append : (xs ys : List Obligation) → take (length xs) (xs ++ ys) ≡ xs
take-append [] ys = refl
take-append (x ∷ xs) ys = ap (λ zs. x ∷ zs) (take-append xs ys)

satisfied-append : (xs ys : List Obligation) → satisfied (xs ++ ys) ≡ satisfied xs + satisfied ys
unfolding satisfied
satisfied-append [] ys = omega arith
satisfied-append (x ∷ xs) ys = ground (arith, satisfied-append xs ys)

-- The obligations that were known before the turn, as they are after it.
abbrev pub known_part : Tracker → Tracker → List Obligation
known_part t t' = take (length t.obligations) t'.obligations

absorb_obligations-part :
    (threshold : ℕ) (os : List Obligation) (cs : List (Text × Bool))
    → let (os', attained) = absorb_obligations threshold os cs in
      (satisfied os + as_number attained ≤ satisfied (take (length os) os'))
      × (attained ≡ false → take (length os) os' ≡ os)
      × (satisfied os ≤ satisfied os')
unfolding absorb_obligations
absorb_obligations-part threshold os cs =
    let start : Absorbed = record { known = os; new_entries = []; progressed = false } in
    let done = absorb_all threshold start cs in
    let sound = absorb_all-Sound threshold cs start in
    let part : take (length os) (done.known ++ done.new_entries) ≡ done.known =
      rw (← sound.keeps) (take-append done.known done.new_entries) in
    (
      rw part (omega (arith, sound.counts)),
      λ h. part ∙ (sound.idle h).0,
      omega (arith, sound.counts, satisfied-append done.known done.new_entries),
    )

is_empty-false {ℓ} : {A : Type ℓ} (xs : List A) → xs ≢ [] → is_empty xs ≡ false
is_empty-false [] h = absurd (h refl)
is_empty-false (x ∷ xs) h = refl

true≢false : ◌≢◌ {A = Bool} true false
true≢false e = cc

record_pairs-part :
    (t : Tracker) (pairs : List (Text × Bool)) (gates : Option ℕ)
    → t.obligations ≢ []
    → let (t', s) = record_pairs t pairs gates in
      (s.progressed ≡ true
        → (satisfied t.obligations < satisfied (known_part t t'))
          ⊎ (rose gates t.best_gates ≡ true))
      × (s.progressed ≡ true → t'.streak ≡ 0)
      × (s.progressed ≡ false
          → (known_part t t' ≡ t.obligations)
            × (rose gates t.best_gates ≡ false)
            × (t'.streak ≡ t.streak + 1))
unfolding record_pairs
record_pairs-part t pairs gates known =
    ground (arith, absorb_obligations-part t.match_threshold t.obligations pairs)

-- A judged turn, over a tracker that already knows obligations, with at least one criterion that is
-- not blank. If the turn counts as progress, then an obligation known before was satisfied for the
-- first time, or the passing gates rose over their best count; and the streak becomes 0. If it does
-- not, the known obligations are as they were, the gates did not rise over their best count, and
-- the streak grows by one.
pub progress_is_attainment :
    (t : Tracker) (criteria : List Item) (gates : Option ℕ)
    → t.obligations ≢ []
    → iter_criteria criteria ≢ []
    → let (t', s) = record_turn t criteria gates in
      (s.progressed ≡ true
        → (satisfied t.obligations < satisfied (known_part t t'))
          ⊎ (rose gates t.best_gates ≡ true))
      × (s.progressed ≡ true → t'.streak ≡ 0)
      × (s.progressed ≡ false
          → (known_part t t' ≡ t.obligations)
            × (rose gates t.best_gates ≡ false)
            × (t'.streak ≡ t.streak + 1))
unfolding record_turn
progress_is_attainment t criteria gates known some_ =
    rw (is_empty-false (iter_criteria criteria) some_)
      (record_pairs-part t (iter_criteria criteria) gates known)

-- No turn lowers the number of obligations ever satisfied, whatever the judge reports.
pub satisfied_monotone :
    (t : Tracker) (criteria : List Item) (gates : Option ℕ)
    → satisfied t.obligations ≤ satisfied (record_turn t criteria gates).0.obligations
unfolding record_turn record_pairs
satisfied_monotone t criteria gates =
    ground (arith, absorb_obligations-part t.match_threshold t.obligations (iter_criteria criteria))

All-met_full : (os : List Obligation) → All (λ o. o.met ≡ true) os → satisfied os ≡ length os
unfolding satisfied
All-met_full [] h = refl
All-met_full (o ∷ os) h = ground (arith, h, All-met_full os h.1)

satisfied-le : (os : List Obligation) → satisfied os ≤ length os
unfolding satisfied
satisfied-le os = count_if-le-length (λ o. o.met) os

length-known_part : (os xs : List Obligation) → length (take (length os) xs) ≤ length os
length-known_part os xs = omega (arith, length-take (length os) xs)

-- Once every known obligation has been satisfied, no report of met, unmet or reworded criteria
-- resets the streak: a turn with criteria lengthens it, unless the passing gates rise over their
-- best count.
pub met_obligations_do_not_reset :
    (t : Tracker) (criteria : List Item) (gates : Option ℕ)
    → t.obligations ≢ []
    → All (λ o. o.met ≡ true) t.obligations
    → rose gates t.best_gates ≡ false
    → iter_criteria criteria ≢ []
    → (record_turn t criteria gates).0.streak ≡ t.streak + 1
met_obligations_do_not_reset t criteria gates known met flat some_ =
    let (t', s) = record_turn t criteria gates in
    let part = progress_is_attainment t criteria gates known some_ in
    elim (Bool-cases s.progressed) [
      | inr idle ↦ (part.2 idle).2
      | inl busy ↦ absurd (elim (part.0 busy) [
        | inl more ↦ omega (
          arith,
          more,
          All-met_full t.obligations met,
          satisfied-le (known_part t t'),
          length-known_part t.obligations t'.obligations,
        )
        | inr up ↦ true≢false (sym up ∙ flat)
      ])
    ]
