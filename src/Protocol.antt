-- ===== src/Protocol.antt =====
-- The aggregation protocol (crates/daphne/src/protocol).
pub mod Framing
pub mod Vdaf
pub mod Report
pub mod Job
pub mod Init
pub mod AggShare
pub mod Client
pub mod Collector
