-- ===== src/Monitoring/Session.antt =====
-- supervisor/monitoring/session_tracker.py: SessionTracker. Fractions are pairs of a numerator and
-- a denominator; the `threshold` of `__init__` is a percentage. A method that logs a warning
-- returns its threshold; the wording of the log line is left out, but for the advice.
pub mod Warnings
mod Tests
use super_opencode.Base.{
  ℕ, ◌-◌, Bool, true, false, Option, none, some, List, [], not, ◌==◌, leb, take, if◌then◌else◌,
  Text, codes,
}
use super_opencode.Monitoring.Tokens.{reaches, share, get_threshold_for_fraction}

pub record SessionTracker : Type 0 where
  pub threshold : ℕ
  pub max_tokens : ℕ
  pub current : ℕ
  pub last_warning_threshold : Option ℕ
  pub truncation_enabled : Bool
  pub compaction_triggered : Bool
  pub files_read : List Text
  pub prompt_head : Text

unfoldable pub new : ℕ → ℕ → Bool → SessionTracker
new threshold max_tokens truncation = record {
  threshold = threshold;
  max_tokens = max_tokens;
  current = 0;
  last_warning_threshold = none;
  truncation_enabled = truncation;
  compaction_triggered = false;
  files_read = [];
  prompt_head = [];
}

-- `1.0` when there is no limit
abbrev pub fraction : SessionTracker → ℕ × ℕ
fraction s = if s.max_tokens == 0 then (1, 1) else (s.current, s.max_tokens)

unfoldable pub should_compact : SessionTracker → Bool
should_compact s = reaches (fraction s) s.threshold

unfoldable pub can_continue_session : SessionTracker → Bool
can_continue_session s = not (reaches (fraction s) 50)

unfoldable pub approaching_limit : SessionTracker → Bool
approaching_limit s = reaches (fraction s) 80

unfoldable pub is_critical : SessionTracker → Bool
is_critical s = reaches (fraction s) 90

-- `_get_advice_for_threshold`
unfoldable pub advice_for_threshold : ℕ → Text
advice_for_threshold t =
    if leb 90 t
    then codes "CRITICAL: Context nearly full. Immediate compaction strongly recommended."
    else if leb 80 t
    then codes "WARNING: Context high. Compaction recommended soon."
    else if leb 70 t
    then codes "Context usage elevated. Monitor closely."
    else if leb 60 t
    then codes "Context approaching compaction threshold. Plan for cleanup."
    else codes "Context usage above 50%. Be mindful of token budget."

abbrev given {ℓ} : {A : Type ℓ} → Option A → A → A
given none old = old
given (some a) old = a

-- `current_threshold is not None and current_threshold != self._last_warning_threshold`
abbrev pub is_news : Option ℕ → Option ℕ → Bool
is_news none last = false
is_news (some t) none = true
is_news (some t) (some u) = not (t == u)

-- The first lines of `update`: the new usage, and the files and the prompt if they are given.
abbrev pub set_usage : SessionTracker → ℕ → Option (List Text) → Option Text → SessionTracker
set_usage s tokens files head = record s {
  current = tokens;
  files_read = given files s.files_read;
  prompt_head = elim head [ none ↦ s.prompt_head | some h ↦ take 100 h ];
}

-- The second result is the threshold that a warning is logged for.
unfoldable pub update :
    SessionTracker → ℕ → Option (List Text) → Option Text → SessionTracker × Option ℕ
update s tokens files head =
    let s' = set_usage s tokens files head in
    let crossed = get_threshold_for_fraction (fraction s') in
    if is_news crossed s.last_warning_threshold
    then (record s' { last_warning_threshold = crossed }, crossed)
    else (s', none)

pub data Recommendation : Type 0 where
  critical compact prepare acceptable : Recommendation

-- `get_reduction_advice`: the overage, and which of the four texts is recommended
unfoldable pub get_reduction_advice : SessionTracker → ℕ × Recommendation
get_reduction_advice s =
    let advice =
      if reaches (fraction s) 90
      then critical
      else if should_compact s
      then compact
      else if approaching_limit s
      then prepare
      else acceptable in
    (s.current - share s.max_tokens s.threshold, advice)

unfoldable pub reset : SessionTracker → SessionTracker
reset s = record s { current = 0; last_warning_threshold = none; compaction_triggered = false }
