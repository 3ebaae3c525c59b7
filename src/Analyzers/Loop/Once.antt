-- ===== src/Analyzers/Loop/Once.antt =====
-- supervisor/analyzers/loop_detector.py: one signal in the life of a LoopDetector, and its window.
use super_opencode.Base.{
  ℕ, suc, ◌≤◌, ◌≡◌, ◌∙◌, refl, Bool, true, false, List, [], ◌∷◌, ◌++◌, arith, if◌then◌else◌,
  is_some, length, length-append, length-pop_over, Text, inl, inr, Bool-cases,
}
use super_opencode.Analyzers.Loop.{
  Detector, record_text, note_call, judge_call, record_tool, key_of,
}

-- What the stream driver reports of one turn: prose, or a tool call with its marker.
pub data Event : Type 0 where
  prose : Event
  tool : Text → Event

unfoldable pub step : Detector → Event → Detector × Bool
step d prose = (record_text d, false)
step d (tool m) = let (d', s) = record_tool d m in (d', is_some s)

-- The detector after a stream of events, and how many signals it raised.
unfoldable pub run : Detector → List Event → Detector × ℕ
run d [] = (d, 0)
run d (e ∷ es) =
    let (d', raised) = step d e in let (d'', n) = run d' es in (d'', (if raised then suc n else n))

judge_call-fired :
    (d : Detector) (m : Text)
    → d.fired ≡ false
    → (judge_call d m).0.fired ≡ is_some (judge_call d m).1
unfolding judge_call
judge_call-fired d m h = ground arith

judge_call-recent : (d : Detector) (m : Text) → (judge_call d m).0.recent ≡ d.recent
unfolding judge_call
judge_call-recent d m = ground arith

judge_call-window : (d : Detector) (m : Text) → (judge_call d m).0.window ≡ d.window
unfolding judge_call
judge_call-window d m = ground arith

pub record_tool-open :
    (d : Detector) (m : Text)
    → d.fired ≡ false
    → record_tool d m ≡ judge_call (note_call d (key_of m)) m
unfolding record_tool
record_tool-open d m h = simp h

step-fired : (d : Detector) (e : Event) → d.fired ≡ false → (step d e).0.fired ≡ (step d e).1
unfolding step record_tool note_call record_text
step-fired d prose h = h
step-fired d (tool m) h = ground (arith, judge_call-fired (note_call d (key_of m)) m)

step-silent :
    (d : Detector) (e : Event)
    → d.fired ≡ true
    → ((step d e).0.fired ≡ true) × ((step d e).1 ≡ false)
unfolding step record_tool record_text
step-silent d prose h = (h, refl)
step-silent d (tool m) h = ground arith

run-silent : (d : Detector) (es : List Event) → d.fired ≡ true → (run d es).1 ≡ 0
unfolding run
run-silent d [] h = refl
run-silent d (e ∷ es) h =
    ground (arith, step-silent d e h, run-silent (step d e).0 es (step-silent d e h).0)

-- A detector that has not fired raises one signal at most, over any stream of prose and tool calls,
-- and a detector that has fired raises none.
pub run_once : (d : Detector) (es : List Event) → (run d es).1 ≤ (if d.fired then 0 else 1)
unfolding run
run_once d [] = ground arith
run_once d (e ∷ es) = elim (Bool-cases d.fired) [
  | inl done ↦ ground (arith, run-silent d (e ∷ es) done)
  | inr open_ ↦ ground (arith, step-fired d e open_, run_once (step d e).0 es)
]

pub run-stays_fired : (d : Detector) (es : List Event) → d.fired ≡ true → (run d es).0.fired ≡ true
unfolding run
run-stays_fired d [] h = h
run-stays_fired d (e ∷ es) h = run-stays_fired (step d e).0 es (step-silent d e h).0

-- A detector that goes from not fired to fired has raised exactly one signal.
pub run-one_signal :
    (d : Detector) (es : List Event)
    → d.fired ≡ false
    → (run d es).0.fired ≡ true
    → (run d es).1 ≡ 1
unfolding run
run-one_signal d [] h f = cc
run-one_signal d (e ∷ es) h f = elim (Bool-cases (step d e).1) [
  | inl raised ↦ ground (arith, run-silent (step d e).0 es (step-fired d e h ∙ raised))
  | inr quiet ↦ ground (arith, run-one_signal (step d e).0 es (step-fired d e h ∙ quiet) f)
]

note_call-window :
    (d : Detector) (k : Text)
    → length d.recent ≤ d.window
    → length (note_call d k).recent ≤ (note_call d k).window
unfolding note_call
note_call-window d k h =
    length-pop_over d.window (d.recent ++ k ∷ []) (omega (arith, length-append d.recent (k ∷ [])))

judge_call-bound :
    (d : Detector) (m : Text)
    → length d.recent ≤ d.window
    → length (judge_call d m).0.recent ≤ (judge_call d m).0.window
judge_call-bound d m h = rw (judge_call-recent d m, judge_call-window d m) h

step-window :
    (d : Detector) (e : Event)
    → length d.recent ≤ d.window
    → length (step d e).0.recent ≤ (step d e).0.window
unfolding step record_tool record_text
step-window d prose h = h
step-window d (tool m) h =
    let noted = note_call d (key_of m) in
    let kept : length noted.recent ≤ noted.window = note_call-window d (key_of m) h in
    ground (arith, h, judge_call-bound noted m kept)

-- The detector never keeps more than `window` recent calls, over any stream of events.
pub run-window :
    (d : Detector) (es : List Event)
    → length d.recent ≤ d.window
    → length (run d es).0.recent ≤ (run d es).0.window
unfolding run
run-window d [] h = h
run-window d (e ∷ es) h = run-window (step d e).0 es (step-window d e h)
