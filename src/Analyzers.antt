-- ===== src/Analyzers.antt =====
-- supervisor/analyzers: the detectors that watch a supervised agent for loops and stagnation.
pub mod Turn
pub mod Stagnation
pub mod Loop
pub mod CrossTurn
