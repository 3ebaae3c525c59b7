-- ===== src/Monitoring/Session/Warnings.antt =====
-- supervisor/monitoring/session_tracker.py: the graduated warnings of a session.
use super_opencode.Base.{
  ℕ, ◌+◌, ◌-◌, ◌/◌, ◌≤◌, ◌<◌, ◌≡◌, ◌∙◌, true, false, not, Option, none, some, List, [], ◌∷◌, arith,
  subst, is_some, if◌then◌else◌,
}
use super_opencode.Monitoring.Tokens.{get_threshold_for_fraction, reaches}
use super_opencode.Monitoring.Session.{
  SessionTracker, fraction, is_news, update, should_compact, can_continue_session,
  approaching_limit, is_critical, get_reduction_advice, critical, acceptable,
}

-- The place of a threshold among the five, from 1; 0 for none.
abbrev rank : Option ℕ → ℕ
rank none = 0
rank (some t) = (t - 40) / 10

crossed : ℕ → ℕ → Option ℕ
crossed c m = get_threshold_for_fraction (c, m)

-- More tokens never lower the threshold, and a threshold that is news is a higher one.
crossed_news :
    (c c' m : ℕ)
    → c ≤ c'
    → (if is_news (crossed c' m) (crossed c m) then 1 else 0) + rank (crossed c m)
      ≤ rank (crossed c' m)
unfolding crossed get_threshold_for_fraction
crossed_news c c' m h = ground arith

crossed_old :
    (c c' m : ℕ)
    → c ≤ c'
    → is_news (crossed c' m) (crossed c m) ≡ false
    → crossed c m ≡ crossed c' m
unfolding crossed get_threshold_for_fraction
crossed_old c c' m h old = ground arith

crossed-le : (c m : ℕ) → rank (crossed c m) ≤ 5
unfolding crossed get_threshold_for_fraction
crossed-le c m = ground arith

-- The last warning is for the threshold that the present usage has crossed.
pub record IsWarned (s : SessionTracker) : Type 0 where
  pub limited : 0 < s.max_tokens
  pub last : s.last_warning_threshold ≡ get_threshold_for_fraction (s.current, s.max_tokens)

-- The number of warnings that a row of updates logs.
unfoldable pub warnings : SessionTracker → List ℕ → ℕ
warnings s [] = 0
warnings s (tokens ∷ ts) =
    let (s', warned) = update s tokens none none in
    (if is_some warned then 1 else 0) + warnings s' ts

-- Each usage is at least the one before it.
abbrev pub Grows : ℕ → List ℕ → Type 0
Grows c [] = Unit {0}
Grows c (t ∷ ts) = (c ≤ t) × Grows t ts

update-warned :
    (s : SessionTracker) (tokens : ℕ)
    → IsWarned s
    → s.current ≤ tokens
    → let (s', warned) = update s tokens none none in
      (s'.current ≡ tokens)
      × (s'.max_tokens ≡ s.max_tokens)
      × (s'.last_warning_threshold ≡ crossed tokens s.max_tokens)
      × (is_some warned ≡ is_news (crossed tokens s.max_tokens) (crossed s.current s.max_tokens))
unfolding update crossed
update-warned s tokens h grows =
    ground (arith, h.limited, h.last, crossed_old s.current tokens s.max_tokens grows)

warnings-rank :
    (ts : List ℕ) (s : SessionTracker)
    → IsWarned s
    → Grows s.current ts
    → warnings s ts + rank (crossed s.current s.max_tokens) ≤ 5
unfolding warnings
warnings-rank [] s h grows = omega (arith, crossed-le s.current s.max_tokens)
warnings-rank (t ∷ ts) s h grows =
    let s' = (update s t none none).0 in
    let u = update-warned s t h grows.0 in
    let h' : IsWarned s' = record {
      limited = omega (arith, h.limited, u.1);
      last = u.2 ∙ unfold crossed in rw (u.0, u.1);
    } in
    let same : crossed s'.current s'.max_tokens ≡ crossed t s.max_tokens = rw (u.0, u.1) in
    let rest : warnings s' ts + rank (crossed t s.max_tokens) ≤ 5 =
      subst (λ o. warnings s' ts + rank o ≤ 5) same (warnings-rank ts s' h' (rw u.0 grows.1)) in
    rw u.3 (omega (arith, rest, crossed_news s.current t s.max_tokens grows.0))

-- Over any row of updates whose usage never falls, a session with a positive limit whose last
-- warning is up to date (as it is at the start) logs at most five warnings: one for each threshold.
pub warnings-le :
    (s : SessionTracker) (ts : List ℕ) → IsWarned s → Grows s.current ts → warnings s ts ≤ 5
warnings-le s ts h grows = omega (arith, warnings-rank ts s h grows)

compact_stops :
    (threshold : ℕ) (f : ℕ × ℕ)
    → 50 ≤ threshold
    → reaches f threshold ≡ true
    → not (reaches f 50) ≡ false
compact_stops threshold (n, d) h e = grind (arith)

-- With a compaction threshold of at least 50 %, a session that should be compacted is never one
-- that may be continued, a critical session is one that approaches the limit, and the advice is
-- critical exactly when the session is, and acceptable exactly when the session should not be
-- compacted and does not approach the limit.
pub advice_matches_state :
    (s : SessionTracker)
    → 50 ≤ s.threshold
    → (should_compact s ≡ true → can_continue_session s ≡ false)
      × (is_critical s ≡ true → approaching_limit s ≡ true)
      × ((get_reduction_advice s).1 ≡ critical → is_critical s ≡ true)
      × (is_critical s ≡ true → (get_reduction_advice s).1 ≡ critical)
      × ((get_reduction_advice s).1 ≡ acceptable
          → (should_compact s ≡ false) × (approaching_limit s ≡ false))
      × (should_compact s ≡ false
          → approaching_limit s ≡ false
          → (get_reduction_advice s).1 ≡ acceptable)
unfolding should_compact can_continue_session is_critical approaching_limit get_reduction_advice
advice_matches_state s h = (
  λ e. compact_stops s.threshold (fraction s) h e,
  λ e. ground arith,
  λ e. ground arith,
  λ e. ground arith,
  λ e. ground arith,
  λ e f. ground arith,
)
