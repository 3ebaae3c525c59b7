-- ===== src/Jobs/Recorder/Blocks.antt =====
-- services/jobs/event_recorder.py with services/jobs/state_store.py: what becomes of large events.
use super_opencode.Base.{
  all, subst, sym, ◌++◌, length, show_nat, is_some, ◌≢◌, ℕ, ◌≤◌, ◌≡◌, ◌∙◌, refl, ap, true, false,
  ◌⊎◌, Option, none, some, List, [], is_empty, Text, codes, text_eq, text_eq_iff, mem_text, strip,
  arith,
}
use super_opencode.Jobs.Sidecar.{Body, Try, is_clean, append_full, read_full, max_full_bytes}
use super_opencode.Jobs.Sidecar.Kept.{IsSeeded, Append, append_all, cost, body_is_kept}
use super_opencode.Jobs.Recorder.{
  Warn, Event, Recorder, kept, dropped, raised, big_block_levels, text_or, find_warn, warn_key,
  record_warn, warn_by, count_warn, big_block_by, record_big_block, record_event, referred,
  digest_event, headline, Recorded,
}

big-apart :
    (level other : Text)
    → mem_text other big_block_levels ≡ false
    → mem_text level big_block_levels ≡ true
    → text_eq level other ≡ false
big-apart level other small big = ground (arith, text_eq_iff level other, small, big)

-- The levels that are tested for before are not those of large blocks.
record IsBig (level : Text) : Type 0 where
  no_heartbeat : text_eq level (codes "heartbeat") ≡ false
  no_error : text_eq level (codes "error") ≡ false
  no_warn : text_eq level (codes "warn") ≡ false

mem_text-IsBig : (level : Text) → mem_text level big_block_levels ≡ true → IsBig level
unfolding mem_text text_eq
mem_text-IsBig level big = record {
  no_heartbeat = big-apart level (codes "heartbeat") refl big;
  no_error = big-apart level (codes "error") refl big;
  no_warn = big-apart level (codes "warn") refl big;
}

-- the body of a large event
abbrev pub body_of : Event → Text → Body
body_of e msg = record { level = text_or [] e.level; body = msg }

count_warn-kept : (w : Warn) → (count_warn w).1 ≢ raised
unfolding count_warn
count_warn-kept w = ground arith

warn-dropped :
    (e : Event) (r : Recorder)
    → (record_warn e r).1 ≡ dropped
    → is_some (find_warn (warn_key e) r.warn_counts) ≡ true
unfolding record_warn warn_by
warn-dropped e r h = ground (arith, h)

warn-kept : (e : Event) (r : Recorder) → (record_warn e r).1 ≢ raised
unfolding record_warn warn_by
warn-kept e r = by_entry (find_warn (warn_key e) r.warn_counts)
  where
    by_entry : (o : Option Warn) → (warn_by o e r).1 ≢ raised
    by_entry none = ground arith
    by_entry (some w) = count_warn-kept w

-- What stands for a large event: the headline with the reference in place of the message.
pub record IsDigest (e : Event) (msg : Text) (ref : ℕ) (result : Recorded) : Type 0 where
  pub event : Event
  pub same : result ≡ kept event
  pub level : event.level ≡ e.level
  pub text : event.msg ≡ some (headline e msg ++ codes " — full text in event #" ++ show_nat ref)
  pub referred_to : event.ref ≡ some ref
  pub detail : event.detail_len ≡ some (length msg)
  pub no_kind : event.prompt_kind ≡ none
  pub no_digest : event.digest ≡ none

digest_event-IsDigest :
    (e : Event) (msg : Text) (ref : ℕ) → IsDigest e msg ref (kept (digest_event e msg ref))
unfolding digest_event
digest_event-IsDigest e msg ref = record {
  event = digest_event e msg ref;
  same = refl;
  level = refl;
  text = refl;
  referred_to = refl;
  detail = refl;
  no_kind = refl;
  no_digest = refl;
}

-- a body that is not blank and that the attempts did not write
pub record IsUnwritten (width : ℕ → Body → ℕ) (o : Option Text) (e : Event) (ends : List Try)
    (r : Recorder) : Type 0 where
  pub has_msg : Text
  pub same : o ≡ some has_msg
  pub full : is_empty (strip has_msg) ≡ false
  pub failed : (append_full width ends (body_of e has_msg) r.sidecar).1 ≡ none

module _ (width : ℕ → Body → ℕ) where
  block_result :
      (e : Event) (msg : Text) (ends : List Try) (r : Recorder) (ref : ℕ)
      → r.full_mode ≡ false
      → mem_text (text_or (codes "info") e.level) big_block_levels ≡ true
      → e.msg ≡ some msg
      → is_empty (strip msg) ≡ false
      → (append_full width ends (body_of e msg) r.sidecar).1 ≡ some ref
      → record_event width ends e r ≡ (
        record r { sidecar = (append_full width ends (body_of e msg) r.sidecar).0 },
        kept (digest_event e msg ref),
      )
  unfolding record_event record_big_block big_block_by referred
  block_result e msg ends r ref headlines big has_msg full wrote =
      let other = mem_text-IsBig (text_or (codes "info") e.level) big in
      ground (
        arith, headlines, big, has_msg, full, wrote, other.no_heartbeat, other.no_error,
        other.no_warn,
      )

  block-kept :
      (o : Option Text) (e : Event) (ends : List Try) (r : Recorder)
      → (big_block_by width ends o e r).1 ≢ dropped
  unfolding big_block_by referred
  block-kept none e ends r = ground arith
  block-kept (some msg) e ends r = ground arith

  -- A large event of a recorder in headline mode is kept with a headline in place of its message,
  -- with the length of the message and a reference, which the headline names. The full message is read
  -- back by that reference, and it still is after any later bodies that do not exceed the rotation
  -- bound of the sidecar file together, provided that no attempt to write it left a part of its line.
  pub block_is_readable :
      (e : Event) (msg : Text) (ends : List Try) (later : List Append) (r : Recorder) (ref : ℕ)
      → IsSeeded r.sidecar
      → r.sidecar.files.torn ≡ 0
      → all is_clean ends ≡ true
      → r.full_mode ≡ false
      → mem_text (text_or (codes "info") e.level) big_block_levels ≡ true
      → e.msg ≡ some msg
      → is_empty (strip msg) ≡ false
      → (append_full width ends (body_of e msg) r.sidecar).1 ≡ some ref
      → cost width later (append_full width ends (body_of e msg) r.sidecar).0 ≤ max_full_bytes
      → let (r', result) = record_event width ends e r in
        IsDigest e msg ref result
        × (read_full ref (append_all width later r'.sidecar) ≡ some (body_of e msg))
  block_is_readable e msg ends later r ref seeded whole clean headlines big has_msg full wrote
        room =
      let result = block_result e msg ends r ref headlines big has_msg full wrote in
      (
        subst (IsDigest e msg ref) (sym (ap (λ x. x.1) result)) (digest_event-IsDigest e msg ref),
        ap (λ x. read_full ref (append_all width later x.0.sidecar)) result
            ∙ body_is_kept width (body_of e msg) ends later r.sidecar ref seeded whole clean wrote
                room,
      )

  block-raised :
      (o : Option Text) (e : Event) (ends : List Try) (r : Recorder)
      → (big_block_by width ends o e r).1 ≡ raised
      → IsUnwritten width o e ends r
  unfolding big_block_by referred
  block-raised none e ends r h = cc
  block-raised (some msg) e ends r h = record {
    has_msg = msg;
    same = refl;
    full = ground (arith, h);
    failed = ground (arith, h);
  }

  -- An event whose message is a text or missing is dropped only if it is a heartbeat or a warning
  -- whose first line is tracked already, and its recording fails only if it is a large one whose
  -- message is not blank and whose body none of the attempts could write. In full mode neither happens.
  pub nothing_else_is_lost :
      (e : Event) (ends : List Try) (r : Recorder)
      → ((record_event width ends e r).1 ≡ dropped
          → (r.full_mode ≡ false)
            × ((text_eq (text_or (codes "info") e.level) (codes "heartbeat") ≡ true)
                ⊎ ((text_eq (text_or (codes "info") e.level) (codes "warn") ≡ true)
                    × (is_some (find_warn (warn_key e) r.warn_counts) ≡ true))))
        × ((record_event width ends e r).1 ≡ raised
            → (r.full_mode ≡ false)
              × (mem_text (text_or (codes "info") e.level) big_block_levels ≡ true)
              × IsUnwritten width e.msg e ends r)
  unfolding record_event record_big_block
  nothing_else_is_lost e ends r =
      let lost = warn-dropped e r in
      let written = warn-kept e r in
      let blocked = block-kept e.msg e ends r in
      let unwritten = block-raised e.msg e ends r in
      (λ h. ground (arith, h, lost, blocked), λ h. ground (arith, h, written, unwritten))
