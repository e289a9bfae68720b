-- ===== src/Batch.antt =====
-- crates/obs-sink-batch: batches of envelopes on their way to a backend, and the spool on disk.
pub mod Spool
pub mod Worker
pub mod Ingress
mod Tests
