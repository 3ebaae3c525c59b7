-- ===== src/Jobs/Slots.antt =====
-- services/jobs/job_manager.py: the run slots that the workers share, and the parallel flag of the
-- environment. Every operation holds the lock, so that a run is a sequence of steps.
pub mod Shared
use super_opencode.Base.{
  ℕ, suc, ◌+◌, ◌-◌, ◌≡◌, Bool, false, Option, none, some, leb, ltb, if◌then◌else◌, max,
}

pub record Slots : Type 0 where
  pub max_parallel : ℕ
  pub running_count : ℕ
  pub parallel_flag : Bool  -- PARALLEL_RUNS_ENV is set

-- `__init__`
unfoldable pub new : ℕ → Slots
new cap = record { max_parallel = max 1 cap; running_count = 0; parallel_flag = false }

unfoldable pub set_max_parallel_jobs : ℕ → Slots → Slots
set_max_parallel_jobs cap s = record s { max_parallel = max 1 cap }

unfoldable pub sync_parallel_flag : Slots → Slots
sync_parallel_flag s = record s { parallel_flag = ltb 1 s.running_count }

-- one round of the loop of `_wait_for_slot`: `none` goes on waiting
unfoldable pub take_slot : Slots → Option Slots
take_slot s =
    if leb s.max_parallel s.running_count
    then none
    else some (sync_parallel_flag (record s { running_count = s.running_count + 1 }))

unfoldable pub release_slot : Slots → Slots
release_slot s = sync_parallel_flag (record s { running_count = s.running_count - 1 })

-- The slots with the workers that wait for one and those that hold one.
pub record Pool : Type 0 where
  pub slots : Slots
  pub parked : ℕ
  pub holding : ℕ

-- One step of a worker or of the settings.
pub data Step : Pool → Pool → Type 0 where
  submit : {p : Pool} → Step p (record p { parked = p.parked + 1 })
  enter :
      {p : Pool} {s : Slots} {k : ℕ}
      → p.parked ≡ suc k
      → take_slot p.slots ≡ some s
      → Step p (record { slots = s; parked = k; holding = p.holding + 1 })
  give_up : {p : Pool} {k : ℕ} → p.parked ≡ suc k → Step p (record p { parked = k })
  leave :
      {p : Pool} {k : ℕ}
      → p.holding ≡ suc k
      → Step p (record p { slots = release_slot p.slots; holding = k })
  set_cap : {p : Pool} (cap : ℕ) → Step p (record p { slots = set_max_parallel_jobs cap p.slots })

-- The pools of a process, with the largest cap that was ever set.
pub data Reachable : ℕ → Pool → Type 0 where
  start : (cap : ℕ) → Reachable (max 1 cap) (record { slots = new cap; parked = 0; holding = 0 })
  next :
      {peak : ℕ} {p q : Pool}
      → Reachable peak p
      → Step p q
      → Reachable (max peak q.slots.max_parallel) q
