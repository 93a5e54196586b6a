-- ===== src/Onion.antt =====
-- The anonymous data plane: crates/peerless-onion-protocol/src/lib.rs.
pub mod Defs
pub mod Replay
pub mod Cell
pub mod Circuit
pub mod Fragments
pub mod Setup
mod Tests
