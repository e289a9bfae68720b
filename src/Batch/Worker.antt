-- ===== src/Batch/Worker.antt =====
-- crates/obs-sink-batch/src/sink.rs: the worker task of a batching sink.
pub mod State
pub mod Flush
pub mod Admit
pub mod Reship
pub mod Run
pub mod Leaves
pub mod Queue
pub mod Map
pub mod Fifo
pub mod Aside
pub mod Refines
pub mod Bounds
pub mod Upload
pub mod Recovered
mod Tests
