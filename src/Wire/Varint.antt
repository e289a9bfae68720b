-- ===== src/Wire/Varint.antt =====
-- The variable-length integers of crates/obs-core/src/registry/payload_decode.rs and scrubber.rs.
pub mod RoundTrip
pub mod Bounds
use mathlib.Core.Logic.{dite}
use mathlib.Core.WellFounded.{Acc}
use native.Mathlib.Decide.{dec_le}
use obs.Prelude.{
  ℕ, zero, suc, ◌+◌, ◌*◌, ◌/◌, ◌%◌, ◌^◌, ◌≤◌, ◌<◌, bit_and, bit_or, Option, none, some, List, [],
  ◌∷◌, Bytes, ◌==◌, if◌then◌else◌, lt_wf, arith,
}

abbrev pub IsU64 : ℕ → Type 0
IsU64 v = v < 2 ^ 64

-- `value |= u64::from(byte & 0x7F) << shift`
abbrev pub add_group : ℕ → ℕ → ℕ → ℕ
add_group value byte shift = bit_or value (bit_and byte 0x7f * 2 ^ shift % 2 ^ 64)

-- The loop over the rounds left; the list is what the cursor has not read.
unfoldable pub decode_varint_loop : ℕ → ℕ → ℕ → Bytes → Option (ℕ × Bytes)
decode_varint_loop zero value shift cursor = none
decode_varint_loop (suc n) value shift [] = none
decode_varint_loop (suc n) value shift (byte ∷ cursor) =
    let value' = add_group value byte shift in
    let more = decode_varint_loop n value' (shift + 7) cursor in
    if bit_and byte 0x80 == 0 then some (value', cursor) else more

unfoldable pub decode_varint : Bytes → Option (ℕ × Bytes)
decode_varint cursor = decode_varint_loop 10 0 0 cursor

pub group_shrinks : (v : ℕ) → 128 ≤ v → v / 128 < v
group_shrinks v h = omega arith

-- `value as u8` is `value % 256` and `value >>= 7` is `value / 128`.
unfoldable pub encode_raw_varint_loop : (v : ℕ) → Acc ◌<◌ v → Bytes
encode_raw_varint_loop v (Acc.intro _ smaller) =
    dite (dec_le 128 v)
      (λ more.
        bit_or (v % 256) 0x80 ∷ encode_raw_varint_loop (v / 128) (smaller _ (group_shrinks v more)))
      (λ _. (v % 256) ∷ [])

unfoldable pub encode_raw_varint : ℕ → Bytes
encode_raw_varint v = encode_raw_varint_loop v (lt_wf.apply v)

unfoldable pub varint_len_loop : (v : ℕ) → Acc ◌<◌ v → ℕ → ℕ
varint_len_loop v (Acc.intro _ smaller) n =
    dite (dec_le 128 v)
      (λ more. varint_len_loop (v / 128) (smaller _ (group_shrinks v more)) (n + 1)) (λ _. n)

unfoldable pub varint_len : ℕ → ℕ
varint_len v = varint_len_loop v (lt_wf.apply v) 1
