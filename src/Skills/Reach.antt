-- ===== src/Skills/Reach.antt =====
-- supervisor/core/skill_bank.py: the banks that runs of its operations reach.
use super_opencode.Base.{
  ◌≡◌, refl, ◌≤◌, arith, ap, ◌∙◌, ℕ, max, Bool, true, false, Option, none, some, List, [], ◌∷◌,
  ◌++◌, all, is_empty, take, drop, text_eq_iff, Text, Bool-cases, inl, inr,
}
use super_opencode.Skills.{Skill, Bank, Directory, new, is_short}
use super_opencode.Skills.Evict.{
  total_chars, longest_end, fits, evict_over_budget, evict_over_budget_lem,
}
use super_opencode.Skills.Queue.{
  find_skill, has_skill, move_to_end, key_of, Round, load_one, load_each, load_round, load,
  load_found, queue_pending, drain_pending,
}
use super_opencode.Skills.Render.{is_last, render_each, resident_block, context_block}
use super_opencode.Skills.Discovered.{discover-short}
use super_opencode.Skills.Distinct.{
  distinct, IsMoved, move_to_end-IsMoved, distinct-append, all-append, find_skill-name,
  find_skill-all, distinct-longest_end, all-longest_end,
}

-- a use of the bank by the loop or by the prompt
pub data Use : Type 0 where
  load_use : List Text → Use
  queue_use : List Text → Use
  drain_use show_use : Use

unfoldable pub step : Use → Bank → Bank
step (load_use requested) b = (load requested b).0
step (queue_use names) b = queue_pending names b
step drain_use b = (drain_pending b).0
step show_use b = (context_block b).0

unfoldable pub run : List Use → Bank → Bank
run [] b = b
run (u ∷ us) b = run us (step u b)

-- The caps hold of the resident skills, which are distinct skills of the bank's length.
pub record IsSound (b : Bank) : Type 0 where
  pub room : 1 ≤ b.max_resident
  pub budget : b.body_budget ≤ b.max_total_chars
  pub known : all (is_short b.body_budget) b.skills ≡ true
  pub short : all (is_short b.body_budget) b.resident ≡ true
  pub apart : distinct b.resident ≡ true
  pub within : fits b.max_resident b.max_total_chars b.resident ≡ true

-- the rounds of a load keep the skills distinct and short
module _ (p : Skill → Bool) (skills : List Skill) (k : all p skills ≡ true) where
  record IsKept (ss : List Skill) : Type 0 where
    short : all p ss ≡ true
    apart : distinct ss ≡ true

  added :
      (s : Skill) (ss : List Skill)
      → p s ≡ true
      → has_skill s.name ss ≡ false
      → IsKept ss
      → IsKept (ss ++ s ∷ [])
  added s ss ps h i = record {
    short = ground (arith, all-append p ss s, ps, i.short);
    apart = ground (arith, distinct-append ss s, h, i.apart);
  }

  moved : (name : Text) (ss : List Skill) → IsKept ss → IsKept (move_to_end name ss)
  moved name ss i =
      let m = move_to_end-IsMoved p name ss i.apart i.short in
      record { short = m.still_all; apart = m.still_distinct }

  found-IsKept :
      (name : Text) (o : Option Skill) (r : Round)
      → find_skill name skills ≡ o
      → IsKept r.resident
      → IsKept (load_found skills name o r).resident
  unfolding load_found
  found-IsKept name none r h i = i
  found-IsKept name (some s) r h i = elim (Bool-cases (has_skill name r.resident)) [
    | inl e ↦ rw e (moved name r.resident i)
    | inr e ↦ rw e (
        added s r.resident (find_skill-all p name skills s k h)
          (ap (λ n. has_skill n r.resident)
              ((text_eq_iff s.name name).0 (find_skill-name name skills s h))
            ∙ e)
          i)
  ]

  load_one-IsKept :
      (raw : Text) (r : Round) → IsKept r.resident → IsKept (load_one skills raw r).resident
  unfolding load_one
  load_one-IsKept raw r i = elim (Bool-cases (is_empty (key_of raw))) [
    | inl e ↦ rw e i
    | inr e ↦ rw e (found-IsKept (key_of raw) (find_skill (key_of raw) skills) r refl i)
  ]

  load_each-IsKept :
      (raws : List Text) (r : Round) → IsKept r.resident → IsKept (load_each skills raws r).resident
  unfolding load_each
  load_each-IsKept [] r i = i
  load_each-IsKept (raw ∷ raws) r i =
      load_each-IsKept raws (load_one skills raw r) (load_one-IsKept raw r i)

render_each-IsMoved :
    (p : Skill → Bool) (order ss : List Skill)
    → distinct order ≡ true
    → all p order ≡ true
    → IsMoved p order (render_each order ss).0
unfolding render_each
render_each-IsMoved p order [] d a = record {
  same_count = refl;
  same_chars = refl;
  still_distinct = d;
  still_all = a;
}
render_each-IsMoved p order (s ∷ []) d a = move_to_end-IsMoved p s.name order d a
render_each-IsMoved p order (s ∷ t ∷ ss) d a = elim (Bool-cases (is_last s.name order)) [
  | inl e ↦ rw e (render_each-IsMoved p order (t ∷ ss) d a)
  | inr e ↦ rw e (move_to_end-IsMoved p s.name order d a)
]

longest_end-test :
    (test : List Skill → Bool) (ss : List Skill)
    → test [] ≡ true
    → test (longest_end test ss) ≡ true
unfolding longest_end
longest_end-test test [] h = h
longest_end-test test (s ∷ ss) h = ground (arith, longest_end-test test ss h)

module _ (b : Bank) (i : IsSound b) where
  hold :
      (ss : List Skill) (ps : List Text)
      → all (is_short b.body_budget) ss ≡ true
      → distinct ss ≡ true
      → fits b.max_resident b.max_total_chars ss ≡ true
      → IsSound (record b { resident = ss; pending = ps })
  hold ss ps a d f = record {
    room = i.room;
    budget = i.budget;
    known = i.known;
    short = a;
    apart = d;
    within = f;
  }

  empty_fits : fits b.max_resident b.max_total_chars [] ≡ true
  unfolding fits total_chars
  empty_fits = ground arith

  moved_fits :
      {ts : List Skill}
      → IsMoved (is_short b.body_budget) b.resident ts
      → fits b.max_resident b.max_total_chars ts ≡ true
  unfolding fits
  moved_fits m = ground (arith, i.within, m.same_count, m.same_chars)

  evict :
      (ss : List Skill) (ps : List Text)
      → all (is_short b.body_budget) ss ≡ true
      → distinct ss ≡ true
      → IsSound (record b {
        resident = evict_over_budget b.max_resident b.max_total_chars ss;
        pending = ps;
      })
  evict ss ps a d =
      let test = fits b.max_resident b.max_total_chars in
      rw (evict_over_budget_lem b.max_resident b.max_total_chars ss) (
        hold (longest_end test ss) ps (all-longest_end (is_short b.body_budget) test ss a)
          (distinct-longest_end test ss d) (longest_end-test test ss empty_fits))

  load-IsSound : (requested : List Text) → IsSound (load requested b).0
  unfolding load load_round queue_pending
  load-IsSound requested =
      let p = is_short b.body_budget in
      let asked = take b.max_loads_per_turn requested in
      let start : Round = record { resident = b.resident; loaded = []; notes = [] } in
      let r = load_each b.skills asked start in
      let k =
        load_each-IsKept p b.skills i.known asked start
          (record { short = i.short; apart = i.apart }) in
      elim (Bool-cases (is_empty (drop b.max_loads_per_turn requested))) [
        | inl e ↦ rw e (evict r.resident b.pending k.short k.apart)
        | inr e ↦ rw e (evict r.resident _ k.short k.apart)
      ]

  show-IsSound : IsSound (context_block b).0
  unfolding context_block resident_block
  show-IsSound =
      let p = is_short b.body_budget in
      let m = render_each-IsMoved p b.resident b.resident i.apart i.short in
      elim (Bool-cases (is_empty b.resident)) [
        | inl e ↦ rw e i
        | inr e ↦ rw e (hold _ b.pending m.still_all m.still_distinct (moved_fits m))
      ]

  step-IsSound : (u : Use) → IsSound (step u b)
  unfolding step queue_pending drain_pending
  step-IsSound (load_use requested) = load-IsSound requested
  step-IsSound (queue_use names) = hold b.resident _ i.short i.apart i.within
  step-IsSound drain_use = hold b.resident [] i.short i.apart i.within
  step-IsSound show_use = show-IsSound

run-IsSound : (us : List Use) (b : Bank) → IsSound b → IsSound (run us b)
unfolding run
run-IsSound [] b i = i
run-IsSound (u ∷ us) b i = run-IsSound us (step u b) (step-IsSound b i u)

new-IsSound : (bb mr mt ml : ℕ) (ds : List Directory) → IsSound (new bb mr mt ml ds)
unfolding new fits distinct total_chars
new-IsSound bb mr mt ml ds = record {
  room = omega arith;
  budget = omega arith;
  known = discover-short (max 500 bb) ds;
  short = refl;
  apart = refl;
  within = ground arith;
}

pub reached :
    (bb mr mt ml : ℕ) (ds : List Directory) (us : List Use) → IsSound (run us (new bb mr mt ml ds))
reached bb mr mt ml ds us = run-IsSound us _ (new-IsSound bb mr mt ml ds)
