-- ===== src/Calls.antt =====
-- Finished calls: what came of them, and who is told.
pub mod Outcome
