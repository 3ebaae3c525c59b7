-- ===== src/Monitoring.antt =====
-- supervisor/monitoring: token estimates, truncation of prompts, and the usage of the context.
pub mod Tokens
pub mod Session
