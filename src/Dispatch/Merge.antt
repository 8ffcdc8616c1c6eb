-- ===== src/Dispatch/Merge.antt =====
-- The merge policy (src/reports/swarm_reports/dispatch/merge_policy.py): path normalisation, the
-- allowlist globs, the tiers and the decision, each in a child with its laws.
pub mod Paths
pub mod Glob
pub mod Tiers
pub mod Decision
mod Tests
