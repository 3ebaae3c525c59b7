-- ===== src/Jobs/Recorder/Warnings.antt =====
-- services/jobs/event_recorder.py: which repeated warnings a job's log has.
use super_opencode.Base.{
  ℕ, suc, ◌≤◌, ◌≡◌, ◌∙◌, refl, sym, ap, false, Option, none, some, List, [], ◌∷◌, ◌++◌, ◌==◌,
  if◌then◌else◌, length, drop, Text, codes, text_eq, text_eq_iff, text_eq_refl, arith,
  length-append, length-drop, subst, Option-cases, inl, inr,
}
use super_opencode.Jobs.Sidecar.{Sidecar, Body, Try, append_full}
use super_opencode.Jobs.Recorder.{
  Event, Warn, Recorder, Recorded, kept, dropped, warn_track_limit, text_or, warn_key, find_warn,
  set_warn, track, repeated, count_warn, warn_by, record_warn, big_block_by, record_big_block,
  record_event,
}
use super_opencode.Jobs.Recorder.Milestones.{
  is_milestone, top, IsCounted, AreCounted, count_warn_lem, set_warn-AreCounted, track-AreCounted,
  find-IsCounted,
}

-- An event with the ends of the attempts to write its body.
pub record Input : Type 0 where
  pub event : Event
  pub ends : List Try

module _ (width : ℕ → Body → ℕ) where
  unfoldable pub run : List Input → Recorder → Recorder
  run [] r = r
  run (i ∷ rest) r = run rest (record_event width i.ends i.event r).0

  -- Nothing but a warning changes the tracked entries.
  record IsTracked (r : Recorder) : Type 0 where
    headlines : r.full_mode ≡ false
    counted : AreCounted r.warn_counts
    few : length r.warn_counts ≤ warn_track_limit

  length-set_warn : (new : Warn) (ws : List Warn) → length (set_warn new ws) ≡ length ws
  unfolding set_warn
  length-set_warn new [] = refl
  length-set_warn new (w ∷ ws) = ground (arith, length-set_warn new ws)

  length-track :
      (key : Text) (ws : List Warn)
      → length ws ≤ warn_track_limit
      → length (track key ws) ≤ warn_track_limit
  unfolding track
  length-track key ws h = ground (
    arith,
    h,
    length-append ws (record { key = key; count = 1; announced = 1 } ∷ []),
    length-append (drop 1 ws) (record { key = key; count = 1; announced = 1 } ∷ []),
    length-drop 1 ws,
  )

  count_warn-IsCounted : (w : Warn) → IsCounted w → IsCounted (count_warn w).0
  count_warn-IsCounted w h =
      subst IsCounted (sym (ap (λ r. r.0) (count_warn_lem w h)))
        (record { positive = omega arith; announced = refl })

  warn-IsTracked : (e : Event) (r : Recorder) → IsTracked r → IsTracked (record_warn e r).0
  unfolding record_warn warn_by
  warn-IsTracked e r h = elim (Option-cases (find_warn (warn_key e) r.warn_counts)) [
    | inl new ↦ rw new (record {
      headlines = h.headlines;
      counted = track-AreCounted (warn_key e) r.warn_counts h.counted;
      few = length-track (warn_key e) r.warn_counts h.few;
    })
    | inr (w, found) ↦
        let old = find-IsCounted (warn_key e) r.warn_counts w found h.counted in
        rw found (record {
          headlines = h.headlines;
          counted =
              set_warn-AreCounted (count_warn w).0 r.warn_counts (count_warn-IsCounted w old)
                h.counted;
          few = omega (arith, length-set_warn (count_warn w).0 r.warn_counts, h.few);
        })
  ]

  block-IsTracked :
      (o : Option Text) (i : Input) (r : Recorder)
      → IsTracked r
      → IsTracked (big_block_by width i.ends o i.event r).0
  unfolding big_block_by
  block-IsTracked none i r h = h
  block-IsTracked (some msg) i r h =
      let s =
        (append_full width i.ends (record { level = text_or [] i.event.level; body = msg })
          r.sidecar).0 in
      let stored : IsTracked (record r { sidecar = s }) = record {
        headlines = h.headlines;
        counted = h.counted;
        few = h.few;
      } in
      ground (arith, h, stored)

  record_event-IsTracked :
      (i : Input) (r : Recorder) → IsTracked r → IsTracked (record_event width i.ends i.event r).0
  unfolding record_event record_big_block
  record_event-IsTracked i r h =
      let warned = warn-IsTracked i.event r h in
      let blocked = block-IsTracked i.event.msg i r h in ground (arith, h, warned, blocked)

  new-IsTracked :
      (s : Sidecar) → IsTracked (record { full_mode = false; warn_counts = []; sidecar = s })
  unfolding AreCounted
  new-IsTracked s = record { headlines = refl; counted = tt; few = omega arith }

  run-IsTracked : (is : List Input) (r : Recorder) → IsTracked r → IsTracked (run is r)
  unfolding run
  run-IsTracked [] r h = h
  run-IsTracked (i ∷ rest) r h =
      run-IsTracked rest (record_event width i.ends i.event r).0 (record_event-IsTracked i r h)

-- A recorder in headline mode, as a worker creates it.
abbrev pub new : Sidecar → Recorder
new s = record { full_mode = false; warn_counts = []; sidecar = s }

-- how often a warning has been seen since it is tracked
unfoldable pub count_of : Text → Recorder → ℕ
count_of key r = elim (find_warn key r.warn_counts) [ none ↦ 0 | some w ↦ w.count ]

find-set_warn :
    (key : Text) (u w : Warn) (ws : List Warn)
    → find_warn key ws ≡ some w
    → u.key ≡ key
    → find_warn key (set_warn u ws) ≡ some u
unfolding find_warn set_warn
find-set_warn key u w [] found same = cc
find-set_warn key u w (v ∷ ws) found same = ground (
  arith,
  found,
  same,
  find-set_warn key u w ws,
  text_eq_iff v.key key,
  text_eq_iff v.key u.key,
  text_eq_iff u.key key,
)

find-append :
    (key : Text) (ws vs : List Warn)
    → find_warn key ws ≡ none
    → find_warn key (ws ++ vs) ≡ find_warn key vs
unfolding find_warn
find-append key [] vs h = refl
find-append key (w ∷ ws) vs h = ground (arith, h, find-append key ws vs)

find-drop :
    (key : Text) (ws : List Warn) → find_warn key ws ≡ none → find_warn key (drop 1 ws) ≡ none
unfolding find_warn
find-drop key [] h = h
find-drop key (w ∷ ws) h = ground (arith, h)

find-track :
    (key : Text) (ws : List Warn)
    → find_warn key ws ≡ none
    → find_warn key (track key ws) ≡ some (record { key = key; count = 1; announced = 1 })
unfolding track find_warn
find-track key ws h =
    let w : Warn = record { key = key; count = 1; announced = 1 } in
    ground (
      arith,
      h,
      find-append key ws (w ∷ []) h,
      find-append key (drop 1 ws) (w ∷ []) (find-drop key ws h),
      text_eq_refl key,
    )

find_warn-key : (key : Text) (ws : List Warn) (w : Warn) → find_warn key ws ≡ some w → w.key ≡ key
unfolding find_warn
find_warn-key key [] w found = cc
find_warn-key key (v ∷ ws) w found =
    ground (arith, found, find_warn-key key ws w, text_eq_iff v.key key)

-- What the nth occurrence of a tracked warning gives.
unfoldable pub nth_warning : ℕ → Event → Recorded
nth_warning n e =
    if n == 1 then kept e else if is_milestone n then kept (repeated (warn_key e) n) else dropped

warn_result :
    (e : Event) (r : Recorder)
    → AreCounted r.warn_counts
    → ((record_warn e r).1 ≡ nth_warning (suc (count_of (warn_key e) r)) e)
      × (count_of (warn_key e) (record_warn e r).0 ≡ suc (count_of (warn_key e) r))
unfolding record_warn warn_by count_of nth_warning
warn_result e r h = elim (Option-cases (find_warn (warn_key e) r.warn_counts)) [
  | inl unseen ↦
      (ground (arith, unseen), ground (arith, unseen, find-track (warn_key e) r.warn_counts unseen))
  | inr (w, found) ↦
      let old = find-IsCounted (warn_key e) r.warn_counts w found h in
      let same = find_warn-key (warn_key e) r.warn_counts w found in
      let u : Warn = record w { count = suc w.count; announced = top (suc w.count) } in
      (
        ground (arith, found, count_warn_lem w old, old.positive, same),
        ground (
          arith,
          found,
          count_warn_lem w old,
          find-set_warn (warn_key e) u w r.warn_counts found same,
        ),
      )
]

module _ (width : ℕ → Body → ℕ) where
  records_warn :
      (e : Event) (ends : List Try) (r : Recorder)
      → text_or (codes "info") e.level ≡ codes "warn"
      → r.full_mode ≡ false
      → record_event width ends e r ≡ record_warn e r
  unfolding record_event text_eq
  records_warn e ends r warned headlines = rw warned (ground (arith, headlines))

  -- In headline mode, and after any events, a recorder counts the occurrences of a warning by its first
  -- line, from the time on when it tracks it: it passes the first one on unchanged and drops every other
  -- one, but for a short marker at the counts that are milestones.
  pub warnings_are_counted :
      (is : List Input) (e : Event) (ends : List Try) (s : Sidecar)
      → text_or (codes "info") e.level ≡ codes "warn"
      → let r = run width is (new s) in
        let n = suc (count_of (warn_key e) r) in
        ((record_event width ends e r).1 ≡ nth_warning n e)
        × (count_of (warn_key e) (record_event width ends e r).0 ≡ n)
  warnings_are_counted is e ends s warned =
      let r = run width is (new s) in
      let tracked = run-IsTracked width is (new s) (new-IsTracked width s) in
      let (result, count) = warn_result e r tracked.counted in
      let same = records_warn e ends r warned tracked.headlines in
      (ap (λ x. x.1) same ∙ result, ap (λ x. count_of (warn_key e) x.0) same ∙ count)

  -- A recorder never tracks more warnings than the limit, however many different ones there are.
  pub length-warn_counts :
      (is : List Input) (s : Sidecar) → length (run width is (new s)).warn_counts ≤ warn_track_limit
  length-warn_counts is s = (run-IsTracked width is (new s) (new-IsTracked width s)).few
