-- ===== src/Proposals.antt =====
-- Proposals of src/auth-broker/app/proposals: the closed paths, the outbox and the publication.
pub mod Schema
pub mod Hashing
pub mod Outbox
pub mod Publish
mod Tests
