-- ===== src/Leader.antt =====
-- The Leader (crates/daphne/src/roles/leader).
pub mod Memory
pub mod Upload
pub mod CollJobReq
pub mod Peer
pub mod Run
pub mod Process
pub mod Uploaded
