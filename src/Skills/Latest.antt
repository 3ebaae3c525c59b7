-- ===== src/Skills/Latest.antt =====
-- supervisor/core/skill_bank.py: the skill requested last.
use super_opencode.Base.{
  ◌≡◌, refl, ◌≤◌, ◌<◌, arith, ap, ℕ, zero, suc, Bool, true, false, some, List, [], ◌∷◌, ◌++◌,
  length, length-append, take, is_empty, text_eq, Text, Bool-cases, Option-cases, inl, inr,
}
use super_opencode.Skills.{Skill, Bank, Directory, new}
use super_opencode.Skills.Reach.{run, Use, reached}
use super_opencode.Skills.Evict.{fits, longest_end, evict_over_budget, evict_over_budget_lem}
use super_opencode.Skills.Queue.{
  find_skill, has_skill, move_to_end, append_found, key_of, Round, load_found, load_one, load_each,
  load_round, load, queue_pending,
}
use super_opencode.Skills.Distinct.{find_skill-name, has_skill-append, not_found}

-- a list of skills whose last one has the name
record EndsIn (n : Text) (ss : List Skill) : Type 0 where
  front : List Skill
  last : Skill
  shape : ss ≡ front ++ last ∷ []
  named : text_eq last.name n ≡ true

move_to_end-EndsIn :
    (n : Text) (ss : List Skill) → has_skill n ss ≡ true → EndsIn n (move_to_end n ss)
unfolding move_to_end append_found
move_to_end-EndsIn n ss h = elim (Option-cases (find_skill n ss)) [
  | inl e ↦ ground (arith, h, not_found n ss e)
  | inr (t, e) ↦
      rw e (record { front = _; last = t; shape = refl; named = find_skill-name n ss t e })
]

load_found-EndsIn :
    (skills : List Skill) (n : Text) (s : Skill) (r : Round)
    → text_eq s.name n ≡ true
    → EndsIn n (load_found skills n (some s) r).resident
unfolding load_found
load_found-EndsIn skills n s r h = elim (Bool-cases (has_skill n r.resident)) [
  | inl e ↦ rw e (move_to_end-EndsIn n r.resident e)
  | inr e ↦ rw e (record { front = r.resident; last = s; shape = refl; named = h })
]

load_each-append :
    (skills : List Skill) (raws : List Text) (raw : Text) (r : Round)
    → load_each skills (raws ++ raw ∷ []) r ≡ load_one skills raw (load_each skills raws r)
unfolding load_each
load_each-append skills [] raw r = refl
load_each-append skills (a ∷ raws) raw r = load_each-append skills raws raw (load_one skills a r)

longest_end-last :
    (test : List Skill → Bool) (ss : List Skill) (t : Skill) (n : Text)
    → text_eq t.name n ≡ true
    → test (t ∷ []) ≡ true
    → has_skill n (longest_end test (ss ++ t ∷ [])) ≡ true
unfolding longest_end
longest_end-last test [] t n h one = ground (arith, h, one)
longest_end-last test (s ∷ ss) t n h one =
    ground (arith, longest_end-last test ss t n h one, has_skill-append n ss t, h)

one_fits : (m c : ℕ) (t : Skill) → 1 ≤ m → fits m c (t ∷ []) ≡ true
unfolding fits
one_fits m c t h = ground arith

evict-keeps :
    (m c : ℕ) (n : Text) (ss : List Skill)
    → 1 ≤ m
    → EndsIn n ss
    → has_skill n (evict_over_budget m c ss) ≡ true
evict-keeps m c n ss h e =
    rw (evict_over_budget_lem m c ss)
      (rw e.shape (longest_end-last (fits m c) e.front e.last n e.named (one_fits m c e.last h)))

take_all : {A : Type 0} (n : ℕ) (xs : List A) → length xs ≤ n → take n xs ≡ xs
take_all zero [] h = refl
take_all zero (x ∷ xs) h = ground (arith, h)
take_all (suc n) [] h = refl
take_all (suc n) (x ∷ xs) h = ap (λ ys. x ∷ ys) (take_all n xs (omega (arith, h)))

load-resident :
    (requested : List Text) (b : Bank)
    → (load requested b).0.resident
      ≡ evict_over_budget b.max_resident b.max_total_chars (load_round requested b).resident
unfolding load queue_pending
load-resident requested b = ground arith

load_one-EndsIn :
    (skills : List Skill) (raw : Text) (r : Round)
    → is_empty (key_of raw) ≡ false
    → has_skill (key_of raw) skills ≡ true
    → EndsIn (key_of raw) (load_one skills raw r).resident
unfolding load_one
load_one-EndsIn skills raw r full h = elim (Option-cases (find_skill (key_of raw) skills)) [
  | inl e ↦ ground (arith, h, not_found (key_of raw) skills e)
  | inr (s, e) ↦
      rw full
        (rw e (load_found-EndsIn skills (key_of raw) s r (find_skill-name (key_of raw) skills s e)))
]

load_round-EndsIn :
    (raws : List Text) (raw : Text) (b : Bank)
    → length raws < b.max_loads_per_turn
    → is_empty (key_of raw) ≡ false
    → has_skill (key_of raw) b.skills ≡ true
    → EndsIn (key_of raw) (load_round (raws ++ raw ∷ []) b).resident
unfolding load_round
load_round-EndsIn raws raw b few full h =
    let all_taken =
      take_all b.max_loads_per_turn (raws ++ raw ∷ [])
        (omega (arith, few, length-append raws (raw ∷ []))) in
    rw all_taken (
      rw
        (load_each-append b.skills raws raw
          (record { resident = b.resident; loaded = []; notes = [] }))
        (load_one-EndsIn b.skills raw _ full h))

pub load-latest :
    (b : Bank) (raws : List Text) (raw : Text)
    → 1 ≤ b.max_resident
    → length raws < b.max_loads_per_turn
    → is_empty (key_of raw) ≡ false
    → has_skill (key_of raw) b.skills ≡ true
    → has_skill (key_of raw) (load (raws ++ raw ∷ []) b).0.resident ≡ true
load-latest b raws raw room few full h = rw (load-resident (raws ++ raw ∷ []) b) (
    evict-keeps b.max_resident b.max_total_chars (key_of raw) _ room
      (load_round-EndsIn raws raw b few full h))

-- In every run of a new bank, when a turn requests no more skills than it may load and the last of
-- them is in the bank, that skill is resident after the load, whatever was evicted.
pub last_request_is_resident :
    (bb mr mt ml : ℕ) (ds : List Directory) (us : List Use) (raws : List Text) (raw : Text)
    → length raws < (run us (new bb mr mt ml ds)).max_loads_per_turn
    → is_empty (key_of raw) ≡ false
    → has_skill (key_of raw) (run us (new bb mr mt ml ds)).skills ≡ true
    → has_skill (key_of raw) (load (raws ++ raw ∷ []) (run us (new bb mr mt ml ds))).0.resident
      ≡ true
last_request_is_resident bb mr mt ml ds us raws raw =
    load-latest (run us (new bb mr mt ml ds)) raws raw (reached bb mr mt ml ds us).room
