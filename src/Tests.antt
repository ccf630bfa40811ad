-- ===== src/Tests.antt =====
-- Runs on concrete data.
pub mod Data
pub mod Escrows
pub mod Records
pub mod Financing
pub mod Roles
pub mod Start
pub mod Purchasing
pub mod Sourcing
pub mod Calls
pub mod Awards
pub mod Contracts
