-- ===== src/Analyzers/Loop/Explore.antt =====
-- supervisor/analyzers/loop_detector.py: a LoopDetector over a turn of distinct calls.
use super_opencode.Base.{
  ℕ, zero, suc, ◌*◌, ◌-◌, ◌%◌, ◌≤◌, ◌<◌, ◌≡◌, refl, true, false, none, List, [], ◌∷◌, ◌++◌, arith,
  length, length-append, length-drop, take, drop, from_end, get_or, pop_over, Text, text_eq,
  text_eq_refl, text_eq_sym, text_eq_iff, mem_text, mem_text-append, inl, inr, Bool-cases, ltb,
  ◌==◌, ==_iff,
}
use super_opencode.Analyzers.Loop.{
  Detector, note_call, judge_call, key_of, add_key, follows, cycle_at, detect_cycle, same_as, new,
  record_text,
}
use super_opencode.Analyzers.Loop.Once.{Event, step, run, record_tool-open}

-- No text stands in the list twice.
abbrev pub IsDistinct : List Text → Type 0
IsDistinct [] = Unit {0}
IsDistinct (k ∷ ks) = (mem_text k ks ≡ false) × IsDistinct ks

IsDistinct-snoc :
    (ks : List Text) (k : Text) → IsDistinct ks → mem_text k ks ≡ false → IsDistinct (ks ++ k ∷ [])
unfolding mem_text
IsDistinct-snoc [] k h fresh = (refl, tt)
IsDistinct-snoc (j ∷ ks) k h fresh = (
  ground (arith, mem_text-append j ks (k ∷ []), text_eq_sym j k, h),
  IsDistinct-snoc ks k h.1 (ground arith),
)

IsDistinct-drop : (n : ℕ) (ks : List Text) → IsDistinct ks → IsDistinct (drop n ks)
IsDistinct-drop zero ks h = h
IsDistinct-drop (suc n) [] h = h
IsDistinct-drop (suc n) (k ∷ ks) h = IsDistinct-drop n ks h.1

IsDistinct-pop_over : (n : ℕ) (ks : List Text) → IsDistinct ks → IsDistinct (pop_over n ks)
IsDistinct-pop_over n [] h = h
IsDistinct-pop_over n (k ∷ ks) h = elim (Bool-cases (ltb n (suc (length ks)))) [
  | inl e ↦ rw e h.1
  | inr e ↦ rw e h
]

-- A member, found at an index.
mem-get_or :
    (ks : List Text) (k : Text) (i : ℕ) → i < length ks → get_or ks i [] ≡ k → mem_text k ks ≡ true
unfolding mem_text
mem-get_or [] k i lt e = absurd (omega arith)
mem-get_or (j ∷ ks) k zero lt e = rw (← e, text_eq_refl j)
mem-get_or (j ∷ ks) k (suc i) lt e = ground (arith, mem-get_or ks k i)

-- Two places of a list without repeats hold different texts.
get_or-distinct :
    (ks : List Text) (i j : ℕ)
    → IsDistinct ks
    → i < j
    → j < length ks
    → text_eq (get_or ks j []) (get_or ks i []) ≡ false
get_or-distinct [] i j h lt len = absurd (omega arith)
get_or-distinct (k ∷ ks) i zero h lt len = absurd (omega arith)
get_or-distinct (k ∷ ks) zero (suc j) h lt len =
    ground (arith, text_eq_iff (get_or ks j []) k, mem-get_or ks k j)
get_or-distinct (k ∷ ks) (suc i) (suc j) h lt len =
    get_or-distinct ks i j h.1 (omega arith) (omega arith)

-- A pattern that repeats twice makes the window hold one text at the places 0 and `period`.
follows-at :
    (window pattern : List Text) (period n i : ℕ)
    → follows window pattern period n ≡ true
    → i < n
    → text_eq (get_or window i []) (get_or pattern (i % period) []) ≡ true
unfolding follows
follows-at window pattern period zero i h lt = absurd (omega arith)
follows-at window pattern period (suc n) i h lt = elim (Bool-cases (i == n)) [
  | inl e ↦ last_place ((==_iff i n).0 e)
  | inr e ↦ ground (arith, follows-at window pattern period n i)
]
  where
    last_place : i ≡ n → text_eq (get_or window i []) (get_or pattern (i % period) []) ≡ true
    last_place e = rw e (ground arith)

mod_self : (n : ℕ) → 0 < n → n % n ≡ 0
mod_self n h = grind arith

get_or-take_zero : (n : ℕ) (ks : List Text) → get_or (take (suc n) ks) 0 [] ≡ get_or ks 0 []
get_or-take_zero n [] = refl
get_or-take_zero n (k ∷ ks) = refl

follows-distinct :
    (window : List Text) (period n : ℕ)
    → IsDistinct window
    → suc period < n
    → n ≤ length window
    → follows window (take (suc period) window) (suc period) n ≡ false
follows-distinct window period n h lt len =
    elim (Bool-cases (follows window (take (suc period) window) (suc period) n)) [
      | inr e ↦ e
      | inl e ↦ cc (
        follows-at window (take (suc period) window) (suc period) n (suc period) e lt,
        mod_self (suc period) (omega arith),
        get_or-take_zero period window,
        get_or-distinct window 0 (suc period) h (omega arith) (omega arith),
      )
    ]

IsDistinct-from_end : (n : ℕ) (ks : List Text) → IsDistinct ks → IsDistinct (from_end n ks)
IsDistinct-from_end n ks h = elim (Bool-cases (n == 0)) [
  | inl e ↦ rw e h
  | inr e ↦ rw e (IsDistinct-drop (length ks - n) ks h)
]

length-from_end : (n : ℕ) (ks : List Text) → n ≤ length ks → n ≤ length (from_end n ks)
length-from_end n ks h = ground (arith, length-drop (length ks - n) ks)

double-lt : (p m : ℕ) → 2 ≤ m → suc p < suc p * m
double-lt p m h = grind arith

-- Without a repeat among the recent calls no period is found, if a cycle must repeat at all.
cycle_at-distinct :
    (d : Detector) (period : ℕ)
    → 2 ≤ d.max_cycle_repeats
    → IsDistinct d.recent
    → cycle_at d (suc period) ≡ none
unfolding cycle_at
cycle_at-distinct d period m h =
    let need = suc period * d.max_cycle_repeats in
    let window = from_end need d.recent in
    elim (Bool-cases (ltb (length d.recent) need)) [
      | inl e ↦ rw e
      | inr e ↦ ground (
        arith,
        follows-distinct window period need (IsDistinct-from_end need d.recent h)
            (double-lt period d.max_cycle_repeats m) (length-from_end need d.recent (ground arith)),
      )
    ]

detect_cycle-distinct :
    (d : Detector) → 2 ≤ d.max_cycle_repeats → IsDistinct d.recent → detect_cycle d ≡ none
unfolding detect_cycle
detect_cycle-distinct d m h =
    rw (cycle_at-distinct d 1 m h, cycle_at-distinct d 2 m h, cycle_at-distinct d 3 m h)

-- The keys of the tool calls among some events.
unfoldable pub tool_keys : List Event → List Text
tool_keys [] = []
tool_keys (Event.prose ∷ es) = tool_keys es
tool_keys (Event.tool m ∷ es) = key_of m ∷ tool_keys es

-- A detector that has not fired and has not met any text outside `seen`.
record Explores (d : Detector) (seen : List Text) : Type 0 where
  fresh : d.fired ≡ false
  distinct : IsDistinct d.recent
  recent_seen : (k : Text) → mem_text k seen ≡ false → mem_text k d.recent ≡ false
  keys_seen : (k : Text) → mem_text k seen ≡ false → mem_text k d.streak_keys ≡ false
  last_seen : (k : Text) → mem_text k seen ≡ false → same_as d.last k ≡ false
  counted : length d.streak_keys ≡ d.tools_since_text
  calls : 2 ≤ d.max_consecutive
  cycles : 2 ≤ d.max_cycle_repeats

pop_over-mem :
    (n : ℕ) (k : Text) (ks : List Text) → mem_text k ks ≡ false → mem_text k (pop_over n ks) ≡ false
unfolding mem_text
pop_over-mem n k [] h = h
pop_over-mem n k (j ∷ ks) h = ground arith

note_call-Explores :
    (d : Detector) (seen : List Text) (k : Text)
    → Explores d seen
    → mem_text k seen ≡ false
    → Explores (note_call d k) (k ∷ seen) × ((note_call d k).consecutive ≡ 1)
unfolding note_call mem_text add_key
note_call-Explores d seen k h new_key = (
  record {
    fresh = h.fresh;
    distinct =
        IsDistinct-pop_over d.window (d.recent ++ k ∷ [])
          (IsDistinct-snoc d.recent k h.distinct (h.recent_seen k new_key));
    recent_seen = λ j out.
        pop_over-mem d.window j (d.recent ++ k ∷ [])
          (ground (arith, mem_text-append j d.recent (k ∷ []), h.recent_seen j));
    keys_seen = λ j out.
        ground
          (arith, mem_text-append j d.streak_keys (k ∷ []), h.keys_seen j, h.keys_seen k new_key);
    last_seen = λ j out. ground arith;
    counted =
        ground (arith, h.counted, h.keys_seen k new_key, length-append d.streak_keys (k ∷ []));
    calls = h.calls;
    cycles = h.cycles;
  },
  ground (arith, h.last_seen k new_key),
)

judge_call-Explores :
    (d : Detector) (seen : List Text) (m : Text)
    → Explores d seen
    → d.consecutive ≡ 1
    → judge_call d m ≡ (d, none)
unfolding judge_call
judge_call-Explores d seen m h once =
    ground (arith, h.counted, h.calls, detect_cycle-distinct d h.cycles h.distinct)

later_keys :
    (j k : Text) (ks seen : List Text)
    → mem_text j ks ≡ true
    → mem_text k ks ≡ false
    → (mem_text j (k ∷ ks) ≡ true → mem_text j seen ≡ false)
    → mem_text j (k ∷ seen) ≡ false
unfolding mem_text
later_keys j k ks seen there apart new_key = ground (arith, text_eq_iff j k)

Explores-quietly :
    (es : List Event) (d : Detector) (seen : List Text)
    → Explores d seen
    → IsDistinct (tool_keys es)
    → ((k : Text) → mem_text k (tool_keys es) ≡ true → mem_text k seen ≡ false)
    → (run d es).1 ≡ 0
unfolding run step tool_keys record_text
Explores-quietly [] d seen h apart new_keys = refl
Explores-quietly (Event.prose ∷ es) d seen h apart new_keys =
    Explores-quietly es (record_text d) seen
      (record {
        fresh = h.fresh;
        distinct = h.distinct;
        recent_seen = h.recent_seen;
        keys_seen = λ k out. unfold mem_text in refl;
        last_seen = h.last_seen;
        counted = refl;
        calls = h.calls;
        cycles = h.cycles;
      })
      apart new_keys
Explores-quietly (Event.tool m ∷ es) d seen h apart new_keys =
    let k = key_of m in
    let fresh_key : mem_text k seen ≡ false = new_keys k (unfold mem_text in rw (text_eq_refl k)) in
    let noted = note_call-Explores d seen k h fresh_key in
    rw
      (
        record_tool-open d m h.fresh,
        judge_call-Explores (note_call d k) (k ∷ seen) m noted.0 noted.1,
      )
      (Explores-quietly es (note_call d k) (k ∷ seen) noted.0 apart.1
        (λ j there. later_keys j k (tool_keys es) seen there apart.0 (new_keys j)))

-- Over any events whose tool calls all differ (after trimming and lower-casing), prose between them
-- or not and however many, a new detector whose two repeat limits are at least 2 raises no signal.
pub distinct_calls_quiet :
    (consecutive cycles tools window : ℕ) (es : List Event)
    → 2 ≤ consecutive
    → 2 ≤ cycles
    → IsDistinct (tool_keys es)
    → (run (new consecutive cycles tools window) es).1 ≡ 0
distinct_calls_quiet consecutive cycles tools window es p q apart =
    Explores-quietly es (new consecutive cycles tools window) []
      (unfold new mem_text in
        record {
          fresh = refl;
          distinct = tt;
          recent_seen = λ k out. refl;
          keys_seen = λ k out. refl;
          last_seen = λ k out. refl;
          counted = refl;
          calls = p;
          cycles = q;
        })
      apart (λ k there. unfold mem_text in refl)
