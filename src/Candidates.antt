-- ===== src/Candidates.antt =====
-- The package candidates: what a scoring request may hold.
pub mod Contract
