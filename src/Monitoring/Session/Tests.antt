-- ===== src/Monitoring/Session/Tests.antt =====
-- A session on concrete usages.
use super_opencode.Base.{ℕ, ◌≡◌, refl, true, false, none, List, [], ◌∷◌, arith}
use super_opencode.Monitoring.Tokens.{get_threshold_for_fraction}
use super_opencode.Monitoring.Session.{SessionTracker, update}
use super_opencode.Monitoring.Session.Warnings.{IsWarned, warnings}

abbrev session : SessionTracker
session = record {
  threshold = 60;
  max_tokens = 1000;
  current = 0;
  last_warning_threshold = none;
  truncation_enabled = true;
  compaction_triggered = false;
  files_read = [];
  prompt_head = [];
}

session-IsWarned : IsWarned session
unfolding get_threshold_for_fraction
session-IsWarned = record { limited = omega arith; last = refl }

abbrev usages : List ℕ
usages = 100 ∷ 520 ∷ 530 ∷ 850 ∷ 851 ∷ 990 ∷ 1000 ∷ []

three_warnings : warnings session usages ≡ 3
unfolding warnings update get_threshold_for_fraction
three_warnings = refl
