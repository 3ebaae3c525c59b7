-- ===== src/Analyzers/CrossTurn/Recurrence.antt =====
-- supervisor/analyzers/loop_detector.py: when a recurring result fires the CrossTurnLoopDetector.
use super_opencode.Base.{
  ℕ, zero, suc, ◌+◌, ◌≤◌, ◌<◌, ◌≡◌, ◌∙◌, refl, sym, ap, Bool, true, false, List, [], ◌∷◌, ◌++◌,
  append_assoc, append-nil, arith, ltb, if◌then◌else◌, is_some, length, replicate, length-replicate,
  pop_over, count_if, All, le→leb, Text, text_eq, text_eq_refl, inl, inr, Bool-cases,
}
use super_opencode.Analyzers.Turn.{normalize_turn}
use super_opencode.Analyzers.CrossTurn.{Detector, remember, recurs, judge_turn, record_turn}

-- Whether some turn of the run raises a signal.
pub alarm : Detector → List (Text × Text) → Bool
alarm d [] = false
alarm d ((output, feedback) ∷ ts) =
    let (d', s) = record_turn d output feedback in
    let rest = alarm d' ts in if is_some s then true else rest

-- The last `n` signatures are `sig`.
EndsWith : List Text → Text → ℕ → Type 0
EndsWith sigs sig n = (pre : List Text) × (sigs ≡ pre ++ replicate n sig)

count_if-append :
    (p : Text → Bool) (xs ys : List Text) → count_if p (xs ++ ys) ≡ count_if p xs + count_if p ys
count_if-append p [] ys = omega arith
count_if-append p (x ∷ xs) ys = ground (arith, count_if-append p xs ys)

count_if-replicate : (sig : Text) (n : ℕ) → count_if (text_eq sig) (replicate n sig) ≡ n
count_if-replicate sig zero = refl
count_if-replicate sig (suc n) = ground (arith, text_eq_refl sig, count_if-replicate sig n)

replicate-snoc : (n : ℕ) (sig : Text) → replicate n sig ++ sig ∷ [] ≡ replicate (suc n) sig
replicate-snoc zero sig = refl
replicate-snoc (suc n) sig = ap (λ xs. sig ∷ xs) (replicate-snoc n sig)

EndsWith-count :
    (sigs : List Text) (sig : Text) (n : ℕ) → EndsWith sigs sig n → n ≤ count_if (text_eq sig) sigs
unfolding EndsWith
EndsWith-count sigs sig n (pre, e) =
    rw (e, count_if-append (text_eq sig) pre (replicate n sig), count_if-replicate sig n)
      (omega arith)

EndsWith-snoc :
    (sigs : List Text) (sig : Text) (n : ℕ)
    → EndsWith sigs sig n
    → EndsWith (sigs ++ sig ∷ []) sig (suc n)
unfolding EndsWith
EndsWith-snoc sigs sig n (pre, e) = (
  pre,
  ap (λ xs. xs ++ sig ∷ []) e
      ∙ append_assoc pre (replicate n sig) (sig ∷ [])
      ∙ ap (λ xs. pre ++ xs) (replicate-snoc n sig),
)

-- Dropping the oldest signature leaves the last `n`, if the window holds as many.
EndsWith-pop_over :
    (window : ℕ) (sigs : List Text) (sig : Text) (n : ℕ)
    → n ≤ window
    → EndsWith sigs sig n
    → EndsWith (pop_over window sigs) sig n
unfolding EndsWith
EndsWith-pop_over window sigs sig n room ([], e) =
    ([], ap (pop_over window) e ∙ kept n sig window room)
  where
    kept : (k : ℕ) (s : Text) (w : ℕ) → k ≤ w → pop_over w (replicate k s) ≡ replicate k s
    kept zero s w h = refl
    kept (suc k) s w h = ground (arith, length-replicate k s)
EndsWith-pop_over window sigs sig n room (p ∷ pre, e) =
    elim (Bool-cases (ltb window (suc (length (pre ++ replicate n sig))))) [
      | inl over ↦ (pre, ap (pop_over window) e ∙ rw over)
      | inr fits ↦ (p ∷ pre, ap (pop_over window) e ∙ rw fits)
    ]

-- The state after a turn that raises no signal.
abbrev noted : Detector → Text → Text → Detector
noted d sig_o sig_f = record d {
  outputs = remember d sig_o d.outputs;
  feedbacks = remember d sig_f d.feedbacks;
}

judge_turn-quiet :
    (d : Detector) (sig back output feedback : Text)
    → is_some (judge_turn d sig back output feedback).1 ≡ false
    → ((judge_turn d sig back output feedback).0 ≡ noted d sig back)
      × (recurs d sig (remember d sig d.outputs) ≡ false)
unfolding judge_turn
judge_turn-quiet d sig back output feedback quiet = ground arith

noted-EndsWith :
    (d : Detector) (sig : Text) (n : ℕ)
    → d.min_len ≤ length sig
    → suc n ≤ d.window
    → EndsWith d.outputs sig n
    → EndsWith (remember d sig d.outputs) sig (suc n)
noted-EndsWith d sig n long room ends = rw (le→leb d.min_len (length sig) long) (
    EndsWith-pop_over d.window (d.outputs ++ sig ∷ []) sig (suc n) room
      (EndsWith-snoc d.outputs sig n ends))

quiet_count :
    (d : Detector) (sig : Text) (sigs : List Text) (n : ℕ)
    → d.min_len ≤ length sig
    → n ≤ count_if (text_eq sig) sigs
    → recurs d sig sigs ≡ false
    → n < d.max_repeats
quiet_count d sig sigs n long counted quiet = ground arith

recurring_from :
    (ts : List (Text × Text)) (d : Detector) (sig : Text) (n : ℕ)
    → d.min_len ≤ length sig
    → d.max_repeats ≤ d.window
    → n < d.max_repeats
    → EndsWith d.outputs sig n
    → All (λ t. normalize_turn t.0 ≡ sig) ts
    → d.max_repeats ≤ n + length ts
    → alarm d ts ≡ true
unfolding alarm record_turn
recurring_from [] d sig n long fits few ends same room = absurd (omega arith)
recurring_from ((output, feedback) ∷ ts) d sig n long fits few ends same room =
    let back = normalize_turn feedback in
    rw same.0 (elim (Bool-cases (is_some (judge_turn d sig back output feedback).1)) [
      | inl raised ↦ rw raised
      | inr quiet ↦
          let (moved, still) = judge_turn-quiet d sig back output feedback quiet in
          let grown = noted-EndsWith d sig n long (omega arith) ends in
          let counted = EndsWith-count (remember d sig d.outputs) sig (suc n) grown in
          let fewer = quiet_count d sig (remember d sig d.outputs) (suc n) long counted still in
          rw (quiet, moved)
            (recurring_from ts (noted d sig back) sig (suc n) long fits fewer grown same.1
              (omega arith))
    ])

-- If the normalised output of every turn is one and the same text of at least `min_len` characters,
-- the detector raises a signal within `max_repeats` turns, whatever it has seen before and whatever
-- the feedback is. The window must hold `max_repeats` turns, and `max_repeats` must not be 0.
pub recurring_output_alarms :
    (d : Detector) (sig : Text) (ts : List (Text × Text))
    → d.min_len ≤ length sig
    → 0 < d.max_repeats
    → d.max_repeats ≤ d.window
    → All (λ t. normalize_turn t.0 ≡ sig) ts
    → d.max_repeats ≤ length ts
    → alarm d ts ≡ true
recurring_output_alarms d sig ts long some_ fits same room =
    recurring_from ts d sig 0 long fits some_
      (unfold EndsWith in (d.outputs, sym (append-nil d.outputs))) same (omega arith)
