-- ===== src/Wire/Frame/Stream.antt =====
-- Frames on a stream: read back, waited for, refused.
use obs.Prelude.{
  ℕ, ◌+◌, ◌^◌, ◌≤◌, ◌<◌, ◌≡◌, ap, none, some, [], ◌∷◌, ◌++◌, Bytes, length, take, length-append,
  take-append_le, take_exact, ok, err, arith,
}
use obs.Wire.Message.{Message, IsCodec}
use obs.Wire.Frame.{to_be_bytes, from_be_bytes, frame_too_large, encode_into, decode_frame}

from-to_be_bytes : (n : ℕ) → n < 2 ^ 32 → from_be_bytes (to_be_bytes n) ≡ n
unfolding from_be_bytes to_be_bytes
from-to_be_bytes n h = omega arith

module _ {E : Type 0} (m : Message E) where
  prefix-encode_into :
      (env : E)
      → m.compute_size env < 2 ^ 32
      → from_be_bytes (take 4 (encode_into m env [])) ≡ m.compute_size env
  unfolding encode_into
  prefix-encode_into env h = unfold to_be_bytes in from-to_be_bytes (m.compute_size env) h

  -- A decoded frame takes its prefix and at most `max_frame` bytes, all of them in the buffer.
  pub decode_frame_takes :
      (buf : Bytes) (max_frame : ℕ) {env : E} {used : ℕ}
      → decode_frame m buf max_frame ≡ ok (some (env, used))
      → (4 ≤ used) × (used ≤ length buf) × (used ≤ 4 + max_frame)
  unfolding decode_frame
  decode_frame_takes buf max_frame e = ground arith

  module _ (codec : IsCodec m) where
    pub length-encode_into : (env : E) → length (encode_into m env []) ≡ 4 + m.compute_size env
    unfolding encode_into to_be_bytes
    length-encode_into env = omega (arith, codec.length-write_to env)

    -- `decode_frame` reads back what `encode_into` wrote, says how many bytes it took, and leaves
    -- whatever follows, if the frame is within the limit.
    pub decode_frame-encode_into :
        (env : E) (rest : Bytes) (max_frame : ℕ)
        → m.compute_size env ≤ max_frame
        → decode_frame m (encode_into m env [] ++ rest) max_frame
          ≡ ok (some (env, length (encode_into m env [])))
    unfolding decode_frame encode_into to_be_bytes
    decode_frame-encode_into env rest max_frame h = ground (
      arith,
      from-to_be_bytes (m.compute_size env) (codec.compute_size-lt env),
      length-append (m.write_to env) rest,
      codec.length-write_to env,
      take_exact (m.compute_size env) (m.write_to env) rest (codec.length-write_to env),
      codec.decode-write_to env,
    )

    -- On a proper prefix of a frame within the limit `decode_frame` asks for more bytes.
    pub decode_frame_waits :
        (env : E) (front back : Bytes) (x max_frame : ℕ)
        → m.compute_size env ≤ max_frame
        → encode_into m env [] ≡ front ++ (x ∷ back)
        → decode_frame m front max_frame ≡ ok none
    unfolding decode_frame
    decode_frame_waits env front back x max_frame h e = ground (
      arith,
      length-append front (x ∷ back),
      ap length e,
      length-encode_into env,
      take-append_le 4 front (x ∷ back),
      prefix-encode_into env (codec.compute_size-lt env),
      ap (take 4) e,
    )

    -- A frame above the limit is refused as soon as its prefix is there.
    pub decode_frame_refuses :
        (env : E) (rest : Bytes) (max_frame : ℕ)
        → max_frame < m.compute_size env
        → decode_frame m (to_be_bytes (m.compute_size env) ++ rest) max_frame ≡ err frame_too_large
    unfolding decode_frame to_be_bytes
    decode_frame_refuses env rest max_frame h =
        ground (arith, from-to_be_bytes (m.compute_size env) (codec.compute_size-lt env))
