-- ===== src/Audit.antt =====
-- crates/obs-core/src/audit_spool.rs: the on-disk spool of AUDIT envelopes.
pub mod Crc
pub mod Append
pub mod Recover
mod Tests
