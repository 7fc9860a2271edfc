-- ===== src/Tests.antt =====
-- The programs run on concrete inputs, and the theorems applied at inputs that meet their hypotheses.
pub mod Fixture
pub mod Runs
pub mod Laws
pub mod Resumed
pub mod Tokens
mod ApiWitnesses
mod RunWitnesses
mod Recovered
mod Audited
mod Gates
mod Accounts
mod Clients
mod Witnesses
