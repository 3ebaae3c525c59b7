-- ===== src/Goal.antt =====
-- supervisor/core: what a run has attained, its durable target, and the guard of its completion.
pub mod Criterion
pub mod Progress
pub mod Direction
pub mod Target
pub mod Evidence
pub mod Guard
