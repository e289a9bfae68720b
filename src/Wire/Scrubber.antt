-- ===== src/Wire/Scrubber.antt =====
-- crates/obs-core/src/registry/scrubber.rs: a payload is written anew with its classified fields
-- redacted.
pub mod Step
pub mod Redacts
pub mod Leaks
pub mod Accepts
use obs.Prelude.{
  ℕ, zero, suc, ◌+◌, ◌*◌, ◌^◌, Bool, true, false, Option, none, some, List, [], ◌∷◌, ◌++◌, Bytes,
  Text, ltb, ◌==◌, bit_and, if◌then◌else◌, length, take, drop, Result, ok, err, ◌>>=◌,
}
use obs.Wire.Varint.{add_group, encode_raw_varint}
use obs.Wire.Buffa.{Buffa, WireType}
use obs.Wire.Fields.{FieldMeta, find_meta, is_classified}

-- `ScrubError::ReencodeFailed`, by its text.
pub data ScrubError : Type 0 where
  tag varint fixed64 fixed32 ld_len ld_payload group_unsupported no_progress : ScrubError

-- The scrubber's own copy of the decoder.
unfoldable pub decode_varint_value_loop : ℕ → ℕ → ℕ → Bytes → Option (ℕ × Bytes)
decode_varint_value_loop zero value shift buf = none
decode_varint_value_loop (suc n) value shift [] = none
decode_varint_value_loop (suc n) value shift (byte ∷ buf) =
    let value' = add_group value byte shift in
    let more = decode_varint_value_loop n value' (shift + 7) buf in
    if bit_and byte 0x80 == 0 then some (value', buf) else more

unfoldable pub decode_varint_value : Bytes → Option (ℕ × Bytes)
decode_varint_value buf = decode_varint_value_loop 10 0 0 buf

-- `format!("<redacted-{name}>")`, the name being `field` for a field without metadata.
abbrev pub marker : Option FieldMeta → Text
marker meta =
    (b'<' ∷ b'r' ∷ b'e' ∷ b'd' ∷ b'a' ∷ b'c' ∷ b't' ∷ b'e' ∷ b'd' ∷ b'-' ∷ [])
    ++ (elim meta [ none ↦ b'f' ∷ b'i' ∷ b'e' ∷ b'l' ∷ b'd' ∷ [] | some m ↦ m.name ] ++ (b'>' ∷ []))

-- What a field appends to `scratch`, and what is left of the cursor.
abbrev pub Scrubbed : Type 0
Scrubbed = Result ScrubError (Bytes × Bytes)

module _ (b : Buffa) where
  -- A fixed-width field, `width` bytes long.
  unfoldable pub scrub_fixed : ℕ → WireType → ScrubError → Option FieldMeta → ℕ → Bytes → Scrubbed
  scrub_fixed width wire e meta number cursor =
      if ltb (length cursor) width
      then err e
      else ok (
        (if is_classified meta then [] else b.encode_tag number wire ++ take width cursor),
        drop width cursor,
      )

  unfoldable pub scrub_bytes : Option FieldMeta → ℕ → ℕ → Bytes → Scrubbed
  scrub_bytes meta number len cursor =
      if ltb (length cursor) len
      then err ld_payload
      else ok (
        (if is_classified meta
            then b.encode_tag number WireType.length_delimited ++ b.encode_string (marker meta)
            else b.encode_tag number WireType.length_delimited
              ++ (encode_raw_varint len ++ take len cursor)),
        drop len cursor,
      )

  unfoldable pub scrub_field : Option FieldMeta → ℕ → WireType → Bytes → Scrubbed
  unfolding scrub_fixed scrub_bytes
  scrub_field meta number WireType.varint cursor = elim (decode_varint_value cursor) [
    | none ↦ err varint
    | some (v, rest) ↦ ok (
      (if is_classified meta
          then []
          else b.encode_tag number WireType.varint ++ encode_raw_varint v),
      rest,
    )
  ]
  scrub_field meta number WireType.fixed64 cursor =
      scrub_fixed 8 WireType.fixed64 fixed64 meta number cursor
  scrub_field meta number WireType.fixed32 cursor =
      scrub_fixed 4 WireType.fixed32 fixed32 meta number cursor
  scrub_field meta number WireType.length_delimited cursor = elim (decode_varint_value cursor) [
    | none ↦ err ld_len
    | some (len, rest) ↦ scrub_bytes meta number len rest
  ]
  scrub_field meta number WireType.start_group cursor = err group_unsupported
  scrub_field meta number WireType.end_group cursor = err group_unsupported

  module _ (fields : List FieldMeta) where
    -- The loop; `none` is no Rust value: the fuel ran out.
    unfoldable pub scrub_loop : ℕ → Bytes → Bytes → Option (Result ScrubError Bytes)
    scrub_loop fuel [] scratch = some (ok scratch)
    scrub_loop zero (c ∷ cs) scratch = none
    scrub_loop (suc fuel) (c ∷ cs) scratch = elim (b.decode_tag (c ∷ cs)) [
      | none ↦ some (err tag)
      | some (number, wire, cursor) ↦
          elim (scrub_field (find_meta fields number) number wire cursor) [
            | err e ↦ some (err e)
            | ok (out, rest) ↦ elim (length rest == length (c ∷ cs)) [
              | true ↦ some (err no_progress)
              | false ↦ scrub_loop fuel rest (scratch ++ out)
            ]
          ]
    ]

    unfoldable pub scrub_payload : Bytes → Option (Result ScrubError Bytes)
    scrub_payload payload = scrub_loop (length payload) payload []
