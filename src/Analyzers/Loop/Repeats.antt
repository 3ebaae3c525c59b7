-- ===== src/Analyzers/Loop/Repeats.antt =====
-- supervisor/analyzers/loop_detector.py: a LoopDetector that sees one call again and again.
use super_opencode.Base.{
  ℕ, zero, suc, ◌+◌, ◌≤◌, ◌≡◌, ◌∙◌, refl, true, false, some, arith, replicate, Text, text_eq_refl,
  inl, inr, Bool-cases, ◌⊎◌,
}
use super_opencode.Analyzers.Loop.{Detector, note_call, judge_call, key_of}
use super_opencode.Analyzers.Loop.Once.{
  tool, step, run, record_tool-open, run-stays_fired, run-one_signal,
}

judge_call-keeps :
    (d : Detector) (m : Text)
    → ((judge_call d m).0.last ≡ d.last)
      × ((judge_call d m).0.consecutive ≡ d.consecutive)
      × ((judge_call d m).0.max_consecutive ≡ d.max_consecutive)
unfolding judge_call
judge_call-keeps d m = ground arith

judge_call-repeats :
    (d : Detector) (m : Text) → d.max_consecutive ≤ d.consecutive → (judge_call d m).0.fired ≡ true
unfolding judge_call
judge_call-repeats d m h = ground arith

-- `n` calls with key `k` have just been seen; nothing is asked at `n ≡ 0`.
abbrev Repeated : Detector → Text → ℕ → Type 0
Repeated d k n = (n ≡ 0) ⊎ ((d.last ≡ some k) × (n ≤ d.consecutive))

note_call-repeat :
    (d : Detector) (k : Text) (n : ℕ)
    → Repeated d k n
    → ((note_call d k).last ≡ some k)
      × (n + 1 ≤ (note_call d k).consecutive)
      × ((note_call d k).max_consecutive ≡ d.max_consecutive)
unfolding note_call
note_call-repeat d k n h = ground (arith, text_eq_refl k)

-- One more such call raises the count by one, and fires once the count is reached.
step-repeat :
    (d : Detector) (m : Text) (n : ℕ)
    → d.fired ≡ false
    → Repeated d (key_of m) n
    → Repeated (step d (tool m)).0 (key_of m) (n + 1)
      × ((step d (tool m)).0.max_consecutive ≡ d.max_consecutive)
      × (d.max_consecutive ≤ n + 1 → (step d (tool m)).0.fired ≡ true)
unfolding step
step-repeat d m n fresh h =
    let noted = note_call d (key_of m) in
    let more = note_call-repeat d (key_of m) n h in
    let kept = judge_call-keeps noted m in
    let all : Repeated (judge_call noted m).0 (key_of m) (n + 1)
        × ((judge_call noted m).0.max_consecutive ≡ d.max_consecutive)
        × (d.max_consecutive ≤ n + 1 → (judge_call noted m).0.fired ≡ true) =
      (
        inr (kept.0 ∙ more.0, omega arith),
        kept.2 ∙ more.2,
        λ h. judge_call-repeats noted m (omega arith),
      ) in
    rw (record_tool-open d m fresh) all

fires_within :
    (r : ℕ) (d : Detector) (m : Text) (n : ℕ)
    → d.fired ≡ false
    → Repeated d (key_of m) n
    → d.max_consecutive ≤ n + suc r
    → (run d (replicate (suc r) (tool m))).0.fired ≡ true
unfolding run
fires_within zero d m n fresh h room = (step-repeat d m n fresh h).2 room
fires_within (suc r) d m n fresh h room =
    let d' = (step d (tool m)).0 in
    let next = step-repeat d m n fresh h in
    elim (Bool-cases d'.fired) [
      | inl done ↦ run-stays_fired d' (replicate (suc r) (tool m)) done
      | inr open_ ↦ fires_within r d' m (n + 1) open_ next.0 (omega (arith, next.1))
    ]

-- A detector that has not fired, in whatever state, raises exactly one signal over a row of
-- `max_consecutive` or more calls with one and the same marker.
pub repeats_fire :
    (d : Detector) (m : Text) (r : ℕ)
    → d.fired ≡ false
    → d.max_consecutive ≤ suc r
    → (run d (replicate (suc r) (tool m))).1 ≡ 1
repeats_fire d m r fresh room =
    run-one_signal d (replicate (suc r) (tool m)) fresh
      (fires_within r d m 0 fresh (inl refl) (omega arith))
