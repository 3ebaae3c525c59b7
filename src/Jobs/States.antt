-- ===== src/Jobs/States.antt =====
-- services/jobs/job_states.py: the states of a job, with the one that only the daemon of
-- services/jobs/worker_service.py writes.
use super_opencode.Base.{Bool, true, false}

pub data JobState : Type 0 where
  pending running success failed cancelled blocked abandoned : JobState

-- ACTIVE_JOB_STATES
unfoldable pub is_active : JobState → Bool
is_active pending = true
is_active running = true
is_active success = false
is_active failed = false
is_active cancelled = false
is_active blocked = false
is_active abandoned = false

-- TERMINAL_JOB_STATES
unfoldable pub is_terminal : JobState → Bool
is_terminal pending = false
is_terminal running = false
is_terminal success = true
is_terminal failed = true
is_terminal cancelled = true
is_terminal blocked = true
is_terminal abandoned = false
