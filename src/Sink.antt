-- ===== src/Sink.antt =====
-- The sinks of crates/obs-core/src/sink.
pub mod Date
pub mod Rolling
