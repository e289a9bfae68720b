-- ===== src/Emit.antt =====
-- The emit path of crates/obs-core/src: filter, sampler, scopes and the pipeline that joins them.
pub mod Severity
pub mod Envelope
pub mod Filter
pub mod Callsite
pub mod Sampling
pub mod Scope
pub mod Pipeline
pub mod CallsiteRegistry
pub mod Worker
pub mod Dispatch
pub mod Observer
mod Tests
