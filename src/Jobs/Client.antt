-- ===== src/Jobs/Client.antt =====
-- services/jobs/store_client.py: the client of the user interface. It writes to the same store as
-- the manager of the daemon, and owns no entry and no worker.
use super_opencode.Base.{ℕ, Option, none, some, List, [], ◌∷◌, map, if◌then◌else◌, Text}
use super_opencode.Jobs.States.{is_active, cancelled}
use super_opencode.Jobs.Store.{
  Job, Manager, get_job_state, save_job_state, update_state, is_taken, pending_job, add, is_due,
}

-- `StoreJobClient.enqueue_job`; the fresh id is a parameter, and `none` is the ValueError.
unfoldable pub write_pending : Text → Text → Text → Option Text → ℕ → Manager → Option Manager
write_pending id kind workspace batch now m =
    if is_taken workspace m.store
    then none
    else some
        (record m { store = save_job_state (pending_job id kind workspace batch now) m.store })

-- `StoreJobClient.cancel_job` past the test of the state, up to its write of the state
abbrev pub write_request : Text → Manager → Manager
write_request id m = record m { sentinels = add id m.sentinels; logs = add id m.logs }

-- that write
abbrev pub write_cancelled : Text → ℕ → Manager → Manager
write_cancelled id now m = record m { store = update_state id cancelled now m.store }

request_found : Text → Manager → Option Job → Manager
request_found id m none = m
request_found id m (some j) = if is_active j.state then write_request id m else m

-- the part of `StoreJobClient.cancel_job` before its write of the state
unfoldable pub ask_request : Text → Manager → Manager
unfolding request_found
ask_request id m = request_found id m (get_job_state id m.store)

cancel_found : Text → ℕ → Manager → Option Job → Manager
cancel_found id now m none = m
cancel_found id now m (some j) =
    if is_active j.state then write_cancelled id now (write_request id m) else m

-- `StoreJobClient.cancel_job`, where no other process writes in between: a job that is not active is
-- left alone
unfoldable pub ask_cancel : Text → ℕ → Manager → Manager
unfolding cancel_found
ask_cancel id now m = cancel_found id now m (get_job_state id m.store)

-- the loop of `StoreJobClient.cancel_batch` over the listed ids
unfoldable pub ask_each : Text → ℕ → List Text → Manager → Manager × List Text
ask_each batch now [] m = (m, [])
ask_each batch now (id ∷ ids) m =
    let due = is_due batch (get_job_state id m.store) in
    let (m', done) = ask_each batch now ids (if due then ask_cancel id now m else m) in
    (m', if due then id ∷ done else done)

unfoldable pub ask_batch : Text → ℕ → Manager → Manager × List Text
ask_batch batch now m = ask_each batch now (map (λ (j : Job). j.job_id) m.store) m
