-- ===== src/Wire/Message.antt =====
-- The generated message type `obs.v1.ObsEnvelope` with its codec, from the third-party `buffa` crate.
use obs.Prelude.{ℕ, ◌^◌, ◌<◌, ◌≡◌, Option, some, Bytes, length}

-- `compute_size(&mut cache)`, `write_to(&mut cache, out)` as the bytes appended, and
-- `decode_from_slice(bytes)`.
pub record Message (E : Type 0) : Type 0 where
  pub compute_size : E → ℕ
  pub write_to : E → Bytes
  pub decode_from_slice : Bytes → Option E

-- The documented behaviour: the size is a u32 and the number of bytes written, and what was
-- written is read back.
pub record IsCodec {E : Type 0} (m : Message E) : Type 0 where
  pub compute_size-lt : (e : E) → m.compute_size e < 2 ^ 32
  pub length-write_to : (e : E) → length (m.write_to e) ≡ m.compute_size e
  pub decode-write_to : (e : E) → m.decode_from_slice (m.write_to e) ≡ some e
