-- ===== src/Tests.antt =====
-- Concrete runs: an implementation of the codec that the crate `prio` provides, and the theorems
-- at concrete inputs.
pub mod Reference
mod Messages
mod Task
mod Shares
pub mod Roles
pub mod Protocol
pub mod Init
mod Helper
pub mod AggShare
mod Testing
pub mod Memory
mod Request
mod Client
mod Run
mod Process
