-- ===== src/Node.antt =====
-- The node: crates/peerless-node/src/lib.rs.
pub mod Budget
pub mod Membership
pub mod Tasks
pub mod Uploads
pub mod Handle
mod Tests
