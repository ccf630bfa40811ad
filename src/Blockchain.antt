-- ===== src/Blockchain.antt =====
-- Anchoring of lifecycle events on a blockchain (src/modules/blockchain).
pub mod Anchor
pub mod Anchoring
pub mod MemoryGateway
pub mod MemoryMetadata
