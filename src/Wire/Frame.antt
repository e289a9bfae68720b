-- ===== src/Wire/Frame.antt =====
-- crates/obs-core/src/wire/envelope_codec.rs: envelopes behind a big-endian length.
pub mod Stream
use obs.Prelude.{
  ℕ, ◌+◌, ◌*◌, ◌/◌, ◌%◌, ◌^◌, Option, none, some, List, [], ◌∷◌, ◌++◌, Bytes, ltb, if◌then◌else◌,
  length, take, drop, Result, ok, err,
}
use obs.Wire.Message.{Message}

-- `len.to_be_bytes()` and `u32::from_be_bytes(prefix)`
unfoldable pub to_be_bytes : ℕ → Bytes
to_be_bytes n = (n / 2 ^ 24 % 256) ∷ (n / 2 ^ 16 % 256) ∷ (n / 2 ^ 8 % 256) ∷ (n % 256) ∷ []

unfoldable pub from_be_bytes_loop : ℕ → Bytes → ℕ
from_be_bytes_loop acc [] = acc
from_be_bytes_loop acc (b ∷ bs) = from_be_bytes_loop (acc * 256 + b) bs

unfoldable pub from_be_bytes : Bytes → ℕ
unfolding from_be_bytes_loop
from_be_bytes bs = from_be_bytes_loop 0 bs

-- Both are `io::ErrorKind::InvalidData`.
pub data FrameError : Type 0 where
  frame_too_large malformed : FrameError

module _ {E : Type 0} (m : Message E) where
  -- `encode_into_with_cache`; the cache is cleared first, so it carries nothing over.
  unfoldable pub encode_into_with_cache : E → Bytes → Bytes
  encode_into_with_cache env out = out ++ (to_be_bytes (m.compute_size env) ++ m.write_to env)

  unfoldable pub encode_into : E → Bytes → Bytes
  unfolding encode_into_with_cache
  encode_into env out = encode_into_with_cache env out

  unfoldable pub decode_payload : ℕ → Bytes → Result FrameError (Option (E × ℕ))
  decode_payload len payload = elim (m.decode_from_slice payload) [
    | none ↦ err malformed
    | some env ↦ ok (some (env, 4 + len))
  ]

  -- `Ok(None)` where the buffer is too short.
  unfoldable pub decode_frame : Bytes → ℕ → Result FrameError (Option (E × ℕ))
  unfolding decode_payload
  decode_frame buf max_frame =
      let len = from_be_bytes (take 4 buf) in
      if ltb (length buf) 4
      then ok none
      else if ltb max_frame len
      then err frame_too_large
      else if ltb (length buf) (4 + len)
      then ok none
      else decode_payload len (take len (drop 4 buf))
