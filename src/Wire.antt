-- ===== src/Wire.antt =====
-- crates/obs-core/src/wire and the payload codecs of crates/obs-core/src/registry.
pub mod Varint
pub mod Buffa
pub mod Fields
pub mod Message
pub mod Frame
pub mod Payload
pub mod Scrubber
mod Protobuf
pub mod Flag
mod Tests
