-- ===== src/Protocols.antt =====
-- supervisor/protocols: the acceptance gates of a run.
pub mod Gates
pub mod Feasibility
pub mod Harvest
pub mod Refs
pub mod Check
pub mod Metric
pub mod Rubric
