-- ===== src/Tests.antt =====
-- Runs of the services, and the theorems at small installations.
pub mod Fixtures
pub mod Requests
mod Runs
mod Witnesses
mod ServerWitnesses
