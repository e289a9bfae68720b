-- ===== src/Wire/Payload.antt =====
-- crates/obs-core/src/registry/payload_decode.rs: one field's value, and the loop over a payload that
-- the four projections share.
pub mod Utf8
pub mod Project
pub mod Reads
pub mod Walks
pub mod Redaction
use obs.Prelude.{
  ℕ, zero, suc, ◌+◌, ◌-◌, ◌*◌, Bool, true, false, Option, none, some, List, [], ◌∷◌, Bytes, ltb,
  if◌then◌else◌, length, take, drop, Result, ok, err, ◌>>=◌,
}
use obs.Wire.Varint.{decode_varint, varint_len}
use obs.Wire.Buffa.{Buffa, WireType}

-- A fixed-width value is the number that its bytes make up.
pub data RawValue : Type 0 where
  varint : ℕ → RawValue
  fixed64 : ℕ → RawValue
  fixed32 : ℕ → RawValue
  bytes : Bytes → RawValue

-- `u64::from_le_bytes` and `u32::from_le_bytes`
unfoldable pub from_le_bytes : Bytes → ℕ
from_le_bytes [] = 0
from_le_bytes (b ∷ bs) = b + 256 * from_le_bytes bs

-- `DecodeError::Truncated(offset)`, on the offset alone.
abbrev pub Decoded : Type 0
Decoded = Result ℕ (RawValue × Bytes × ℕ)

unfoldable pub decode_fixed : ℕ → (ℕ → RawValue) → Bytes → ℕ → Decoded
unfolding from_le_bytes
decode_fixed width value cursor offset =
    if ltb (length cursor) width
    then err offset
    else ok (value (from_le_bytes (take width cursor)), drop width cursor, offset + width)

unfoldable pub decode_bytes : ℕ → Bytes → ℕ → Decoded
decode_bytes len cursor offset =
    if ltb (length cursor) len
    then err offset
    else ok (RawValue.bytes (take len cursor), drop len cursor, offset + len)

-- The value behind a tag, what the cursor has not read, and the new offset.
unfoldable pub decode_field_value : Bytes → WireType → ℕ → Decoded
unfolding decode_fixed decode_bytes
decode_field_value cursor WireType.varint offset = elim (decode_varint cursor) [
  | none ↦ err offset
  | some (v, rest) ↦ ok (RawValue.varint v, rest, offset + varint_len v)
]
decode_field_value cursor WireType.fixed64 offset = decode_fixed 8 RawValue.fixed64 cursor offset
decode_field_value cursor WireType.fixed32 offset = decode_fixed 4 RawValue.fixed32 cursor offset
decode_field_value cursor WireType.length_delimited offset = elim (decode_varint cursor) [
  | none ↦ err offset
  | some (len, rest) ↦ decode_bytes len rest (offset + varint_len len)
]
decode_field_value cursor WireType.start_group offset = ok (RawValue.varint 0, cursor, offset)
decode_field_value cursor WireType.end_group offset = ok (RawValue.varint 0, cursor, offset)

-- How a projection ends, with what it has written by then. `diverged` is no Rust value: the fuel of
-- the loop ran out.
pub data Walk (S : Type 0) : Type 0 where
  done : S → Walk S
  truncated : ℕ → S → Walk S
  diverged : Walk S

-- One call for each field that was read: `act out number value`.
module _ (b : Buffa) {S : Type 0} (act : S → ℕ → RawValue → S) where
  unfoldable pub walk_loop : ℕ → S → Bytes → ℕ → Walk S
  walk_loop fuel out [] offset = done out
  walk_loop zero out (c ∷ cs) offset = diverged
  walk_loop (suc fuel) out (c ∷ cs) offset = elim (b.decode_tag (c ∷ cs)) [
    | none ↦ truncated offset out
    | some (number, wire, cursor) ↦
        elim (decode_field_value cursor wire (offset + (length (c ∷ cs) - length cursor))) [
          | err at_offset ↦ truncated at_offset out
          | ok (value, rest, offset') ↦ walk_loop fuel (act out number value) rest offset'
        ]
  ]

  -- Each round takes a byte of the tag at least.
  unfoldable pub walk : S → Bytes → Walk S
  walk out payload = walk_loop (length payload) out payload 0
