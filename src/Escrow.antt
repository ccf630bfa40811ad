-- ===== src/Escrow.antt =====
-- Escrow of an order (src/modules/escrow).
pub mod Record
pub mod Repository
pub mod Rules
pub mod Decision
pub mod Diagram
pub mod Outcomes
pub mod Current
pub mod Transition
pub mod Invariant
pub mod Create
pub mod Soundness
pub mod Release
pub mod Upkeep
pub mod Session
