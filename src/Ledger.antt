-- ===== src/Ledger.antt =====
-- The ledger: crates/peerless-ledger/src/lib.rs.
pub mod Merkle
pub mod Block
pub mod Consensus
pub mod Chain
mod Tests
