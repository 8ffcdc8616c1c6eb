-- ===== src/Broker.antt =====
-- The auth broker's local store (src/auth-broker/app/adapters/sqlite.py): its tables, and a child
-- for each group of methods.
pub mod Store
pub mod Families
pub mod Pairing
pub mod Sessions
pub mod Scopes
pub mod Grants
pub mod Principals
mod Tests
mod PairingTests
mod GrantTests
mod PrincipalTests
mod SessionTests
