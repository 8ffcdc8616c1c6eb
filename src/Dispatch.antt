-- ===== src/Dispatch.antt =====
-- The dispatcher of the daily reports (src/reports/swarm_reports/dispatch).
pub mod Merge
pub mod State
pub mod Claims
