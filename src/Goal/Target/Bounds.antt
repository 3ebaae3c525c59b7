-- ===== src/Goal/Target/Bounds.antt =====
-- supervisor/core/target_state.py: the lists of the durable state stay within their caps.
use super_opencode.Base.{
  ℕ, ◌≤◌, Bool, true, false, Option, none, some, List, [], ◌∷◌, ◌++◌, arith, inl, inr, Bool-cases,
  length, length-take_last, mem_text, Text, codes, strip, max,
}
use super_opencode.Goal.Target.{
  TargetState, append_new, note_direction, note_evidence, apply_acceptance, record_iteration,
  record_target_iteration, loaded_or_fresh, fresh_state, record_lesson, mark_target_closed,
  count_staged, initialise_target_state, max_directions, max_evidence, max_lessons,
}
use super_opencode.Goal.Direction.{direction_fingerprint}

pub record IsBounded (s : TargetState) : Type 0 where
  pub tried : length s.tried_directions ≤ max_directions
  pub rejected : length s.rejected_directions ≤ max_directions
  pub evidence : length s.evidence ≤ max_evidence
  pub lessons : length s.lessons ≤ max_lessons

-- A missing file is bounded.
abbrev pub FileIsBounded : Option TargetState → Type 0
FileIsBounded none = Unit {0}
FileIsBounded (some s) = IsBounded s

length-append_new :
    (cap : ℕ) (item : Text) (items : List Text)
    → length items ≤ cap
    → length (append_new cap item items) ≤ cap
length-append_new cap item items h = elim (Bool-cases (mem_text item items)) [
  | inl e ↦ rw e h
  | inr e ↦ rw e (omega (arith, length-take_last cap (items ++ item ∷ [])))
]

length-note_direction :
    (d : Text) (ds : List Text)
    → length ds ≤ max_directions
    → length (note_direction d ds) ≤ max_directions
length-note_direction [] ds h = h
length-note_direction (c ∷ d) ds h = length-append_new max_directions (c ∷ d) ds h

length-note_evidence :
    (e : Text) (es : List Text)
    → length es ≤ max_evidence
    → length (note_evidence e es) ≤ max_evidence
length-note_evidence [] es h = h
length-note_evidence (c ∷ e) es h =
    omega (arith, length-take_last max_evidence (es ++ strip (c ∷ e) ∷ []))

apply_acceptance-IsBounded :
    (s : TargetState) (accepted : Option Bool) (d : Text)
    → IsBounded s
    → IsBounded (apply_acceptance s accepted d)
unfolding apply_acceptance
apply_acceptance-IsBounded s none d h = h
apply_acceptance-IsBounded s (some true) d h = record {
  tried = h.tried;
  rejected = h.rejected;
  evidence = h.evidence;
  lessons = h.lessons;
}
apply_acceptance-IsBounded s (some false) d h = record {
  tried = h.tried;
  rejected = length-note_direction d s.rejected_directions h.rejected;
  evidence = h.evidence;
  lessons = h.lessons;
}

record_iteration-IsBounded :
    (now : Text) (s : TargetState) (i : ℕ) (d e : Text) (accepted : Option Bool) (reason : Text)
    → IsBounded s
    → IsBounded (record_iteration now s i d e accepted reason)
unfolding record_iteration
record_iteration-IsBounded now s i d e accepted reason h =
    let n = direction_fingerprint d in
    let noted : TargetState = record s {
      iteration = max s.iteration i;
      tried_directions = note_direction n s.tried_directions;
      evidence = note_evidence e s.evidence;
    } in
    let b = apply_acceptance-IsBounded noted accepted n (record {
      tried = length-note_direction n s.tried_directions h.tried;
      rejected = h.rejected;
      evidence = length-note_evidence e s.evidence h.evidence;
      lessons = h.lessons;
    }) in
    record { tried = b.tried; rejected = b.rejected; evidence = b.evidence; lessons = b.lessons }

fresh_state-IsBounded :
    (now target : Text) (cs fs : List Text) → IsBounded (fresh_state now target cs fs)
unfolding fresh_state
fresh_state-IsBounded now target cs fs = omega arith

-- The operations on the state file.
pub data Operation : Type 0 where
  initialise : Text → List Text → List Text → Operation
  iterate : ℕ → Text → Text → Option Bool → Text → Operation
  close : Text → Text → Operation
  learn : Text → Operation
  stage : Operation

unfoldable pub apply : Text → Option TargetState → Operation → Option TargetState
apply now file (initialise target cs fs) = some (initialise_target_state now file target cs fs)
apply now file (iterate i d e accepted reason) =
    some (record_target_iteration now file i d e accepted reason)
apply now file (close reason status) = mark_target_closed now file reason status
apply now file (learn lesson) = record_lesson now file lesson
apply now file stage = count_staged now file

-- Every operation on the state file, a missing file included, keeps the tried and the rejected
-- directions and the evidence to 12 entries each and the lessons to 8.
pub apply-IsBounded :
    (now : Text) (file : Option TargetState) (op : Operation)
    → FileIsBounded file
    → FileIsBounded (apply now file op)
unfolding apply initialise_target_state record_target_iteration mark_target_closed record_lesson
    count_staged
apply-IsBounded now none (initialise target cs fs) h = fresh_state-IsBounded now target cs fs
apply-IsBounded now (some s) (initialise target cs fs) h =
    ground (arith, h, fresh_state-IsBounded now target cs fs)
apply-IsBounded now none (iterate i d e accepted reason) h =
    record_iteration-IsBounded now (loaded_or_fresh now none) i d e accepted reason
      (fresh_state-IsBounded now (codes "Unnamed TARGET") [] [])
apply-IsBounded now (some s) (iterate i d e accepted reason) h =
    record_iteration-IsBounded now s i d e accepted reason h
apply-IsBounded now none (close reason status) h = tt
apply-IsBounded now (some s) (close reason status) h = record {
  tried = h.tried;
  rejected = h.rejected;
  evidence = h.evidence;
  lessons = h.lessons;
}
apply-IsBounded now none (learn lesson) h = tt
apply-IsBounded now (some s) (learn []) h = h
apply-IsBounded now (some s) (learn (c ∷ l)) h = record {
  tried = h.tried;
  rejected = h.rejected;
  evidence = h.evidence;
  lessons = length-append_new max_lessons (c ∷ l) s.lessons h.lessons;
}
apply-IsBounded now none stage h = tt
apply-IsBounded now (some s) stage h = record {
  tried = h.tried;
  rejected = h.rejected;
  evidence = h.evidence;
  lessons = h.lessons;
}
