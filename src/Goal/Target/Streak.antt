-- ===== src/Goal/Target/Streak.antt =====
-- supervisor/core/target_state.py: the status after a run of judged turns, and the detection of a
-- repeated direction.
use native.Mathlib.Nat.{mul-le-mul_right}
use super_opencode.Base.{
  ℕ, zero, suc, ◌+◌, ◌-◌, ◌≤◌, ◌<◌, ◌≡◌, ◌≢◌, ◌∙◌, refl, ap, Bool, true, false, Option, none, some,
  List, [], ◌∷◌, ◌++◌, reverse, arith, inl, inr, Bool-cases, ◌==◌, leb, if◌then◌else◌, is_empty,
  keep, length, length-append, max, drop, mem_text, Text, split_words, text_eq, text_eq_refl,
  text_eq_iff, mem_text-append, mem_text-reverse, subst,
}
use super_opencode.Monitoring.Tokens.{reaches}
use super_opencode.Goal.Criterion.{to_set, overlap}
use super_opencode.Goal.Direction.{direction_fingerprint, find_similar, similar_rejected_direction}
use super_opencode.Goal.Target.{
  TargetState, running, replan_required, retry_with_new_direction, stagnation_limit, max_directions,
  append_new, note_direction, note_evidence, apply_acceptance, record_iteration,
  record_target_iteration, loaded_or_fresh,
}

-- What `record_target_iteration` is told of one turn.
pub record Turn : Type 0 where
  pub iteration : ℕ
  pub direction : Text
  pub evidence : Text
  pub accepted : Option Bool
  pub reason : Text

-- The state after a run of judged turns, each read from the file that the one before wrote.
unfoldable pub run : Text → TargetState → List Turn → TargetState
run now s [] = s
run now s (t ∷ ts) =
    run now
      (record_target_iteration now (some s) t.iteration t.direction t.evidence t.accepted t.reason)
      ts

-- The rejections since the last acceptance; turns that could not be measured do not count.
unfoldable pub rejections : ℕ → List Turn → ℕ
rejections n [] = n
rejections n (t ∷ ts) =
    rejections (elim t.accepted [ none ↦ n | some true ↦ 0 | some false ↦ suc n ]) ts

-- The status that goes with a number of rejections.
abbrev pub status_for : ℕ → Text
status_for n =
    if n == 0
    then running
    else if leb stagnation_limit n
    then replan_required
    else retry_with_new_direction

abbrev pub IsConsistent : TargetState → Type 0
IsConsistent s = s.status ≡ status_for s.stagnation_count

abbrev next_count : ℕ → Option Bool → ℕ
next_count n accepted = elim accepted [ none ↦ n | some true ↦ 0 | some false ↦ suc n ]

apply_acceptance-count :
    (s : TargetState) (accepted : Option Bool) (d : Text)
    → IsConsistent s
    → ((apply_acceptance s accepted d).stagnation_count ≡ next_count s.stagnation_count accepted)
      × IsConsistent (apply_acceptance s accepted d)
unfolding apply_acceptance
apply_acceptance-count s none d h = (refl, h)
apply_acceptance-count s (some true) d h = (refl, refl)
apply_acceptance-count s (some false) d h = (omega arith, ground arith)

record_turn-count :
    (now : Text) (s : TargetState) (t : Turn)
    → IsConsistent s
    → let s' =
        record_target_iteration now
          (some s)
          t.iteration
          t.direction
          t.evidence
          t.accepted
          t.reason in
      (s'.stagnation_count ≡ next_count s.stagnation_count t.accepted) × IsConsistent s'
unfolding record_target_iteration record_iteration
record_turn-count now s t h =
    let n = direction_fingerprint t.direction in
    let noted : TargetState = record s {
      iteration = max s.iteration t.iteration;
      tried_directions = note_direction n s.tried_directions;
      evidence = note_evidence t.evidence s.evidence;
    } in
    apply_acceptance-count noted t.accepted n h

-- From a state whose status fits its count, as a fresh one is, the count after any run of judged
-- turns is the number of rejections since the last acceptance, and the status is `running` at 0,
-- `retry_with_new_direction` at 1 and `replan_required` from 2 on. Unmeasured turns change neither.
pub status_of_run :
    (now : Text) (s : TargetState) (ts : List Turn)
    → IsConsistent s
    → ((run now s ts).stagnation_count ≡ rejections s.stagnation_count ts)
      × ((run now s ts).status ≡ status_for (rejections s.stagnation_count ts))
unfolding run rejections
status_of_run now s [] h = (refl, h)
status_of_run now s (t ∷ ts) h =
    let s' =
      record_target_iteration now (some s) t.iteration t.direction t.evidence t.accepted t.reason in
    let (count, fits) = record_turn-count now s t h in
    let rest = status_of_run now s' ts fits in
    (
      rest.0 ∙ ap (λ n. rejections n ts) count,
      rest.1 ∙ ap (λ n. status_for (rejections n ts)) count,
    )

mem_text-snoc : (xs : List Text) (t : Text) → mem_text t (xs ++ t ∷ []) ≡ true
mem_text-snoc xs t =
    mem_text-append t xs (t ∷ []) ∙ unfold mem_text in rw (text_eq_refl t) (ground arith)

mem_text-drop :
    (k : ℕ) (xs : List Text) (t : Text) → k ≤ length xs → mem_text t (drop k (xs ++ t ∷ [])) ≡ true
mem_text-drop zero xs t h = mem_text-snoc xs t
mem_text-drop (suc k) [] t h = absurd (omega arith)
mem_text-drop (suc k) (x ∷ xs) t h = mem_text-drop k xs t (omega arith)

append_new-mem :
    (cap : ℕ) (t : Text) (ts : List Text) → 0 < cap → mem_text t (append_new cap t ts) ≡ true
append_new-mem cap t ts pos = elim (Bool-cases (mem_text t ts)) [
  | inl e ↦ rw e e
  | inr e ↦
      rw e (
        mem_text-drop (length (ts ++ t ∷ []) - cap) ts t (omega (arith, length-append ts (t ∷ []))))
]

keep_all :
    (xs ys : List Text)
    → ((t : Text) → mem_text t xs ≡ true → mem_text t ys ≡ true)
    → keep (λ t. mem_text t ys) xs ≡ xs
keep_all [] ys h = refl
keep_all (x ∷ xs) ys h =
    rw (h x (unfold mem_text in rw (text_eq_refl x)))
      (ap (λ ts. x ∷ ts) (keep_all xs ys (λ t m. h t (unfold mem_text in ground arith))))

-- A set of tokens reaches any threshold against itself.
overlap_self : (xs : List Text) (p : ℕ) → p ≤ 100 → reaches (overlap xs xs) p ≡ true
unfolding overlap
overlap_self [] p h = ground arith
overlap_self (x ∷ xs) p h = rw (keep_all (x ∷ xs) (x ∷ xs) (λ t m. m)) (full (suc (length xs)) p h)
  where
    full :
        (n q : ℕ) → q ≤ 100 → reaches (if n + n - n == 0 then (1, 1) else (n, n + n - n)) q ≡ true
    full zero q h = ground arith
    full (suc n) q h =
        let e : suc n + suc n - suc n ≡ suc n = omega arith in
        rw e (ground (arith, mul-le-mul_right (suc n) h))

-- A rejected direction that is looked for is found, or a similar one before it.
find_similar-mem :
    (d : Text) (rejected : List Text)
    → mem_text d rejected ≡ true
    → find_similar (to_set (split_words d)) rejected ≢ none
unfolding find_similar mem_text
find_similar-mem d [] h e = cc
find_similar-mem d (r ∷ rs) h e = elim (Bool-cases (text_eq d r)) [
  | inl same ↦
      let here : reaches (overlap (to_set (split_words d)) (to_set (split_words r))) 75 ≡ true =
        subst (λ t. reaches (overlap (to_set (split_words d)) (to_set (split_words t))) 75 ≡ true)
          ((text_eq_iff d r).0 same) (overlap_self (to_set (split_words d)) 75 (omega arith)) in
      cc here
  | inr other ↦ ground (arith, find_similar-mem d rs)
]

to_set_filled : (ts : List Text) → ts ≢ [] → is_empty (to_set ts) ≡ false
unfolding to_set
to_set_filled [] h = absurd (h refl)
to_set_filled (t ∷ ts) h = elim (Bool-cases (mem_text t (to_set ts))) [
  | inr e ↦ rw e
  | inl e ↦ rw e (of_mem (to_set ts) e)
]
  where
    of_mem : (us : List Text) → mem_text t us ≡ true → is_empty us ≡ false
    of_mem [] m = unfold mem_text in cc
    of_mem (u ∷ us) m = refl

similar-mem :
    (rejected : List Text) (direction : Text)
    → split_words (direction_fingerprint direction) ≢ []
    → mem_text (direction_fingerprint direction) rejected ≡ true
    → similar_rejected_direction rejected direction ≢ none
unfolding similar_rejected_direction
similar-mem rejected direction filled there e =
    let n = direction_fingerprint direction in
    find_similar-mem n (reverse rejected) (mem_text-reverse n rejected ∙ there)
      (rw (to_set_filled (split_words n) filled) at e)

note_direction-mem :
    (n : Text) (ds : List Text) → split_words n ≢ [] → mem_text n (note_direction n ds) ≡ true
note_direction-mem [] ds filled = absurd (filled (unfold split_words in refl))
note_direction-mem (c ∷ n) ds filled = append_new-mem max_directions (c ∷ n) ds (omega arith)

-- After a turn that was rejected, the same direction, or any with the same fingerprint, is reported
-- as similar to a rejected one, if its fingerprint has a token at all.
pub repeated_direction_found :
    (now : Text) (file : Option TargetState) (i : ℕ) (d e reason direction : Text)
    → direction_fingerprint direction ≡ direction_fingerprint d
    → split_words (direction_fingerprint direction) ≢ []
    → similar_rejected_direction
        (record_target_iteration now file i d e (some false) reason).rejected_directions
        direction
      ≢ none
unfolding record_target_iteration record_iteration apply_acceptance
repeated_direction_found now file i d e reason direction same filled =
    let n = direction_fingerprint direction in
    similar-mem
      (note_direction (direction_fingerprint d) (loaded_or_fresh now file).rejected_directions)
      direction filled
      (rw (← same) (note_direction-mem n (loaded_or_fresh now file).rejected_directions filled))
