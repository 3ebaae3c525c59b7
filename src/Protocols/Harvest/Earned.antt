-- ===== src/Protocols/Harvest/Earned.antt =====
-- supervisor/protocols/gate_rubric.py: what a harvest counts for a gate, and the proposals that rest on
-- it.
use super_opencode.Base.{
  ℕ, ◌+◌, ◌≡◌, ◌∙◌, refl, sym, ap, true, false, not, ◌||◌, Option, none, some, List, [], ◌∷◌, any,
  arith, Bool-cases, inl, inr, if◌then◌else◌, Text, codes, text_eq, subst, ◌≢◌, text_eq_iff,
  text_eq_refl, text_eq_sym,
}
use super_opencode.Protocols.Harvest.{
  RubricGate, Outcome, Facts, update_gate, find_gate, pass_gate, fail_gate, is_named, transition,
  on_gate, apply_outcome, apply_harvest, provenance,
}
use super_opencode.Protocols.Harvest.Guarded.{is_blocked}

unfoldable pub change : (RubricGate → RubricGate) → Option RubricGate → Option RubricGate
change f none = none
change f (some g) = some (f g)

KeepsName : (RubricGate → RubricGate) → Type 0
KeepsName f = (g : RubricGate) → (f g).name ≡ g.name

any-update_gate :
    (n m : Text) (f : RubricGate → RubricGate) (gs : List RubricGate)
    → KeepsName f
    → any (is_named n) (update_gate m f gs) ≡ any (is_named n) gs
unfolding update_gate KeepsName
any-update_gate n m f [] same = refl
any-update_gate n m f (g ∷ gs) same = ground (arith, any-update_gate n m f gs same, same g)

find-update_own :
    (n : Text) (f : RubricGate → RubricGate) (gs : List RubricGate)
    → KeepsName f
    → find_gate n (update_gate n f gs) ≡ change f (find_gate n gs)
unfolding update_gate find_gate change KeepsName
find-update_own n f [] same = refl
find-update_own n f (g ∷ gs) same = ground (
  arith,
  find-update_own n f gs same,
  any-update_gate n n f gs same,
  ap (λ m. text_eq m n) (same g),
)

find-update_other :
    (n m : Text) (f : RubricGate → RubricGate) (gs : List RubricGate)
    → KeepsName f
    → text_eq m n ≡ false
    → find_gate n (update_gate m f gs) ≡ find_gate n gs
unfolding update_gate find_gate KeepsName
find-update_other n m f [] same apart = refl
find-update_other n m f (g ∷ gs) same apart = ground (
  arith,
  apart,
  find-update_other n m f gs same apart,
  any-update_gate n m f gs same,
  ap (λ k. text_eq k n) (same g),
  text_eq_iff g.name m,
  text_eq_iff g.name n,
  text_eq_sym m n,
  text_eq_iff m n,
)

-- The count of failures in a row for a gate after an outcome, and after several.
unfoldable pub next_streak : Text → Outcome → ℕ → ℕ
next_streak name o n =
    if not (text_eq o.gate name)
    then n
    else if text_eq o.conclusion (codes "PASS")
    then 0
    else if text_eq o.conclusion (codes "FAIL") || text_eq o.conclusion (codes "UNMET")
    then n + 1
    else n

unfoldable pub in_a_row : Text → List Outcome → ℕ → ℕ
in_a_row name [] n = n
in_a_row name (o ∷ os) n = in_a_row name os (next_streak name o n)

-- a gate that has a count, and that is blocked only if `g` is
pub record GateIsCounted (n : ℕ) (g : RubricGate) (after : Option RubricGate) : Type 0 where
  pub gate : RubricGate
  pub found : after ≡ some gate
  pub streak : gate.fail_streak ≡ n
  pub blocked : is_blocked gate ≡ true → is_blocked g ≡ true

-- the gate of a name with another count, and blocked only if it was
pub record IsCounted (count : ℕ → ℕ) (before after : Option RubricGate) : Type 0 where
  pub still_none : before ≡ none → after ≡ none
  pub counted : (g : RubricGate) → before ≡ some g → GateIsCounted (count g.fail_streak) g after

IsCounted-other :
    (o : Outcome) (name : Text) (before after : Option RubricGate)
    → text_eq o.gate name ≡ false
    → after ≡ before
    → IsCounted (next_streak name o) before after
unfolding next_streak
IsCounted-other o name before after apart e = record {
  still_none = λ h. e ∙ h;
  counted =
      λ g h. record { gate = g; found = e ∙ h; streak = ground (arith, apart); blocked = λ b. b };
}

IsCounted-trans :
    (f h : ℕ → ℕ) (a b c : Option RubricGate)
    → IsCounted f a b
    → IsCounted h b c
    → IsCounted (λ n. h (f n)) a c
IsCounted-trans f h a b c x y = record {
  still_none = λ e. y.still_none (x.still_none e);
  counted = λ g e.
      let first = x.counted g e in
      let second = y.counted first.gate first.found in
      record {
        gate = second.gate;
        found = second.found;
        streak = second.streak ∙ ap h first.streak;
        blocked = λ blocked. first.blocked (second.blocked blocked);
      };
}

module _ (prov : Text) (facts : Facts) (o : Outcome) (g : RubricGate) (name : Text) where
  transition-other :
      text_eq o.gate name ≡ false
      → find_gate name (transition prov facts g o).gates ≡ find_gate name facts.gates
  unfolding transition KeepsName
  transition-other apart = ground (
    arith,
    apart,
    find-update_other name o.gate (pass_gate prov) facts.gates (λ g. refl) apart,
    find-update_other name o.gate (fail_gate (g.fail_streak + 1)) facts.gates (λ g. refl) apart,
  )

passing_is_not_blocked : text_eq (codes "passing") (codes "blocked") ≡ false
unfolding text_eq
passing_is_not_blocked = refl

transition-own :
    (prov : Text) (facts : Facts) (o : Outcome) (g : RubricGate)
    → find_gate o.gate facts.gates ≡ some g
    → GateIsCounted
        (next_streak o.gate o g.fail_streak)
        g
        (find_gate o.gate (transition prov facts g o).gates)
unfolding transition next_streak change KeepsName
transition-own prov facts o g found =
    let fails = text_eq o.conclusion (codes "FAIL") || text_eq o.conclusion (codes "UNMET") in
    rw (text_eq_refl o.gate) (elim (Bool-cases (text_eq o.conclusion (codes "PASS"))) [
      | inl passes ↦ rw passes (record {
        gate = pass_gate prov g;
        found =
            find-update_own o.gate (pass_gate prov) facts.gates (λ g. refl)
            ∙ ap (change (pass_gate prov)) found;
        streak = refl;
        blocked = λ b. not_blocked b;
      })
      | inr other ↦ rw other (elim (Bool-cases fails) [
        | inl failed ↦ rw failed (record {
          gate = fail_gate (g.fail_streak + 1) g;
          found =
              find-update_own o.gate (fail_gate (g.fail_streak + 1)) facts.gates (λ g. refl)
              ∙ ap (change (fail_gate (g.fail_streak + 1))) found;
          streak = refl;
          blocked = λ b. b;
        })
        | inr neither ↦
            rw neither (record { gate = g; found = found; streak = refl; blocked = λ b. b })
      ])
    ])
  where
    not_blocked : is_blocked (pass_gate prov g) ≡ true → is_blocked g ≡ true
    not_blocked b = ground (arith, b, passing_is_not_blocked)

transition-IsCounted :
    (prov : Text) (facts : Facts) (o : Outcome) (g : RubricGate)
    → find_gate o.gate facts.gates ≡ some g
    → IsCounted
        (next_streak o.gate o)
        (find_gate o.gate facts.gates)
        (find_gate o.gate (transition prov facts g o).gates)
transition-IsCounted prov facts o g found = record {
  still_none = λ h. absurd (some_is_not_none (sym found ∙ h));
  counted = λ k h.
      subst
        (λ z.
          GateIsCounted (next_streak o.gate o z.fail_streak) z
            (find_gate o.gate (transition prov facts g o).gates))
        (same_some (sym found ∙ h)) (transition-own prov facts o g found);
}
  where
    some_is_not_none : {x : RubricGate} → some x ≢ none
    some_is_not_none h = cc

    same_some : {x y : RubricGate} → some x ≡ some y → x ≡ y
    same_some h = cc

on_gate-IsCounted :
    (prov : Text) (facts : Facts) (o : Outcome) (name : Text) (r : Option RubricGate)
    → find_gate o.gate facts.gates ≡ r
    → IsCounted
        (next_streak name o)
        (find_gate name facts.gates)
        (find_gate name (on_gate prov facts o r).gates)
unfolding on_gate
on_gate-IsCounted prov facts o name none found = elim (Bool-cases (text_eq o.gate name)) [
  | inl same ↦
      let e = ap (λ n. find_gate n facts.gates) (sym ((text_eq_iff o.gate name).0 same)) ∙ found in
      record { still_none = λ h. e; counted = λ g h. absurd (none_is_not_some (sym e ∙ h)) }
  | inr apart ↦ IsCounted-other o name _ _ apart refl
]
  where
    none_is_not_some : {x : RubricGate} → none ≢ some x
    none_is_not_some h = cc
on_gate-IsCounted prov facts o name (some g) found = elim (Bool-cases (text_eq o.gate name)) [
  | inl same ↦
      subst
        (λ n.
          IsCounted (next_streak n o) (find_gate n facts.gates)
            (find_gate n (transition prov facts g o).gates))
        ((text_eq_iff o.gate name).0 same) (transition-IsCounted prov facts o g found)
  | inr apart ↦ IsCounted-other o name _ _ apart (transition-other prov facts o g name apart)
]

module _ (run_id revision : Text) where
  pub outcome-IsCounted :
      (facts : Facts) (o : Outcome) (name : Text)
      → IsCounted
          (next_streak name o)
          (find_gate name facts.gates)
          (find_gate name (apply_outcome run_id revision facts o).gates)
  unfolding apply_outcome
  outcome-IsCounted facts o name =
      on_gate-IsCounted (provenance run_id revision o) facts o name (find_gate o.gate facts.gates)
        refl

  pub apply_harvest-IsCounted :
      (facts : Facts) (os : List Outcome) (name : Text)
      → IsCounted
          (in_a_row name os)
          (find_gate name facts.gates)
          (find_gate name (apply_harvest run_id revision facts os).gates)
  unfolding apply_harvest in_a_row
  apply_harvest-IsCounted facts [] name = record {
    still_none = λ h. h;
    counted = λ g h. record { gate = g; found = h; streak = refl; blocked = λ b. b };
  }
  apply_harvest-IsCounted facts (o ∷ os) name =
      IsCounted-trans (next_streak name o) (in_a_row name os) _ _ _ (outcome-IsCounted facts o name)
        (apply_harvest-IsCounted (apply_outcome run_id revision facts o) os name)
