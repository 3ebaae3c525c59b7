-- ===== src/Jobs/Slots/Shared.antt =====
-- services/jobs/job_manager.py: what holds of the slots in every reachable pool.
use super_opencode.Base.{ℕ, ◌≡◌, ◌≤◌, ◌<◌, is_some, true, arith, ltb, max, ◌⊎◌}
use super_opencode.Jobs.Slots.{
  new, set_max_parallel_jobs, sync_parallel_flag, take_slot, release_slot, Pool, Step, submit,
  enter, give_up, leave, set_cap, Reachable, start, next,
}

record IsSound (peak : ℕ) (p : Pool) : Type 0 where
  counted : p.slots.running_count ≡ p.holding
  flagged : p.slots.parallel_flag ≡ ltb 1 p.holding
  positive : 1 ≤ p.slots.max_parallel
  capped : p.holding ≤ peak
  known : p.slots.max_parallel ≤ peak

Step-IsSound :
    {peak : ℕ} {p q : Pool} → IsSound peak p → Step p q → IsSound (max peak q.slots.max_parallel) q
unfolding take_slot release_slot sync_parallel_flag set_max_parallel_jobs
Step-IsSound h submit = ground (arith, h)
Step-IsSound h (enter waiting taken) = ground (arith, h, taken)
Step-IsSound h (give_up waiting) = ground (arith, h)
Step-IsSound h (leave held) = ground (arith, h, held)
Step-IsSound h (set_cap cap) = ground (arith, h)

reachable-IsSound : {peak : ℕ} {p : Pool} → Reachable peak p → IsSound peak p
unfolding new
reachable-IsSound (start cap) = ground arith
reachable-IsSound (next r step) = Step-IsSound (reachable-IsSound r) step

can_go_on :
    (p : Pool) (peak : ℕ) → IsSound peak p → (is_some (take_slot p.slots) ≡ true) ⊎ (0 < p.holding)
unfolding take_slot
can_go_on p peak h = ground (arith, h)

-- In every reachable pool the counter is the number of workers that hold a slot, the parallel flag is
-- set exactly where more than one does, no more workers hold a slot than the largest cap that was
-- set, and either a slot can be taken at once or some worker holds one, so that no worker waits in
-- vain.
pub slots_are_counted :
    {peak : ℕ} {p : Pool}
    → Reachable peak p
    → (p.slots.running_count ≡ p.holding)
      × (p.slots.parallel_flag ≡ ltb 1 p.holding)
      × (p.holding ≤ peak)
      × ((is_some (take_slot p.slots) ≡ true) ⊎ (0 < p.holding))
slots_are_counted {peak} {p} r =
    let h = reachable-IsSound r in (h.counted, h.flagged, h.capped, can_go_on p peak h)
