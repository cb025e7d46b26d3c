-- ===== src/Messages/Taskprov.antt =====
-- The messages of the taskprov extension: crates/daphne/src/messages/taskprov.rs.
pub mod Vdaf
pub mod Task
