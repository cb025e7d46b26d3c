-- ===== src/Codec.antt =====
-- The codec layer: results, cursors, writers and readers, what `prio::codec` provides, the
-- length-prefixed strings of the messages, and the rules for round trips.
pub mod Base
pub mod Prio
pub mod RoundTrip
pub mod Lengths
pub mod Digits
