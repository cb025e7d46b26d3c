-- ===== src/Messages.antt =====
-- The messages of the DAP protocol: crates/daphne/src/messages/mod.rs.
pub mod Ids
pub mod Report
pub mod Batch
pub mod Aggregation
pub mod Collection
pub mod Hpke
pub mod Taskprov
pub mod Compare
