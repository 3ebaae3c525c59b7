-- ===== src/Jobs.antt =====
-- services/jobs: the background jobs that run the supervisor.
pub mod States
pub mod Outcome
pub mod Slots
pub mod Store
pub mod Worker
pub mod Sidecar
pub mod Logs
pub mod Recorder
pub mod Client
pub mod Daemon
mod Tests
