-- ===== src/Wire/Tests.antt =====
-- Runs of the wire code, and its theorems at concrete inputs.
use obs.Prelude.{◌≡◌, refl, some, List, [], ◌∷◌, ◌++◌, All, Bytes, text_eq, lt_wf, ok, arith}
use native.Mathlib.Decide.{dec_le}
use obs.Wire.Varint.{
  decode_varint, decode_varint_loop, encode_raw_varint, encode_raw_varint_loop, varint_len,
  varint_len_loop,
}
use obs.Wire.Varint.RoundTrip.{decode_varint-encode_raw_varint}
use obs.Wire.Protobuf.{protobuf, protobuf-IsProtobuf, wire_code, wire_of_code, read_tag}
use obs.Wire.Fields.{
  FieldRole, FieldMeta, Cardinality, Classification, find_meta, classified, is_classified,
}
use obs.Wire.Payload.{RawValue, decode_field_value, done, walk, walk_loop}
use obs.Wire.Payload.Utf8.{from_utf8}
use obs.Wire.Payload.Project.{
  Json, insert, value_to_json, render_field, render_json_default, redacted_marker,
  decode_to_arrow_struct_default, decode_to_otlp_kv_default,
}
use obs.Wire.Payload.Reads.{Field, Reads}
use obs.Wire.Payload.Redaction.{projections_hide_classified}
use obs.Wire.Scrubber.{
  decode_varint_value, decode_varint_value_loop, scrub_fixed, scrub_bytes, scrub_field, scrub_loop,
  scrub_payload,
}
use obs.Wire.Scrubber.Redacts.{HasShortNames, redact}
use obs.Wire.Scrubber.Accepts.{HasNoGroups, scrub_payload-Reads}
use obs.Wire.Scrubber.Leaks.{IsSafe, scrub_payload_leaks_nothing}

-- An e-mail address, a classified count and a route.
abbrev schema : List FieldMeta
schema =
    record {
      name = b'm' ∷ [];
      number = 1;
      role = FieldRole.attribute;
      cardinality = Cardinality.unspecified;
      classification = Classification.pii;
    }
    ∷ record {
      name = b'n' ∷ [];
      number = 2;
      role = FieldRole.measurement;
      cardinality = Cardinality.unspecified;
      classification = Classification.secret;
    }
    ∷ record {
      name = b'r' ∷ [];
      number = 3;
      role = FieldRole.label;
      cardinality = Cardinality.low;
      classification = Classification.internal;
    }
    ∷ []

-- Field 1 is "ab", field 2 is 300, field 3 is "x".
abbrev payload : Bytes
payload = 0x0a ∷ 2 ∷ b'a' ∷ b'b' ∷ 0x10 ∷ 0xac ∷ 2 ∷ 0x1a ∷ 1 ∷ b'x' ∷ []

-- The same with other classified values.
abbrev payload' : Bytes
payload' = 0x0a ∷ 1 ∷ b'z' ∷ 0x10 ∷ 7 ∷ 0x1a ∷ 1 ∷ b'x' ∷ []

abbrev scrubbed : Bytes
scrubbed =
    0x0a ∷ 12 ∷ b'<' ∷ b'r' ∷ b'e' ∷ b'd' ∷ b'a' ∷ b'c' ∷ b't' ∷ b'e' ∷ b'd' ∷ b'-' ∷ b'm' ∷ b'>'
    ∷ 0x1a ∷ 1 ∷ b'x' ∷ []

encode_300 : encode_raw_varint 300 ≡ 0xac ∷ 2 ∷ []
unfolding encode_raw_varint encode_raw_varint_loop lt_wf dec_le
encode_300 = refl

render_redacts :
    render_json_default protobuf payload schema []
    ≡ done (
        (b'm' ∷ [], Json.string redacted_marker)
        ∷ (b'n' ∷ [], Json.string redacted_marker)
        ∷ (b'r' ∷ [], Json.string (b'x' ∷ []))
        ∷ [])
unfolding render_json_default walk walk_loop read_tag wire_of_code decode_varint decode_varint_loop
    decode_field_value varint_len varint_len_loop lt_wf dec_le render_field find_meta classified
    insert value_to_json from_utf8 text_eq
render_redacts = refl

scrub_runs : scrub_payload protobuf schema payload ≡ some (ok scrubbed)
unfolding scrub_payload scrub_loop scrub_field read_tag wire_of_code wire_code decode_varint
    decode_varint_loop decode_varint_value decode_varint_value_loop encode_raw_varint
    encode_raw_varint_loop lt_wf dec_le find_meta is_classified scrub_fixed scrub_bytes
scrub_runs = refl

schema-HasShortNames : HasShortNames schema
unfolding find_meta
schema-HasShortNames n = ground arith

abbrev fields_of_payload : List Field
fields_of_payload =
    (1, RawValue.bytes (b'a' ∷ b'b' ∷ []))
    ∷ (2, RawValue.varint 300)
    ∷ (3, RawValue.bytes (b'x' ∷ []))
    ∷ []

abbrev fields_of_payload' : List Field
fields_of_payload' =
    (1, RawValue.bytes (b'z' ∷ [])) ∷ (2, RawValue.varint 7) ∷ (3, RawValue.bytes (b'x' ∷ [])) ∷ []

abbrev fields_of_scrubbed : List Field
fields_of_scrubbed =
    (
      1,
      RawValue.bytes
          (b'<' ∷ b'r' ∷ b'e' ∷ b'd' ∷ b'a' ∷ b'c' ∷ b't' ∷ b'e' ∷ b'd' ∷ b'-' ∷ b'm' ∷ b'>' ∷ []),
    )
    ∷ (3, RawValue.bytes (b'x' ∷ []))
    ∷ []

unfoldable payload-Reads : Reads protobuf payload fields_of_payload
unfolding read_tag wire_of_code decode_varint decode_varint_loop decode_field_value varint_len
    varint_len_loop lt_wf dec_le
payload-Reads =
    Reads.field 0 refl refl (Reads.field 0 refl refl (Reads.field 0 refl refl Reads.end))

payload'-Reads : Reads protobuf payload' fields_of_payload'
unfolding read_tag wire_of_code decode_varint decode_varint_loop decode_field_value varint_len
    varint_len_loop lt_wf dec_le
payload'-Reads =
    Reads.field 0 refl refl (Reads.field 0 refl refl (Reads.field 0 refl refl Reads.end))

scrubbed-Reads : Reads protobuf scrubbed fields_of_scrubbed
unfolding read_tag wire_of_code decode_varint decode_varint_loop decode_field_value varint_len
    varint_len_loop lt_wf dec_le
scrubbed-Reads = Reads.field 0 refl refl (Reads.field 0 refl refl Reads.end)

decode_varint-encode_raw_varint_example :
    decode_varint (encode_raw_varint 300 ++ (9 ∷ [])) ≡ some (300, 9 ∷ [])
decode_varint-encode_raw_varint_example = decode_varint-encode_raw_varint 300 (9 ∷ []) (omega arith)

projections_hide_classified_example :
    (render_json_default protobuf payload schema []
      ≡ render_json_default protobuf payload' schema [])
    × (decode_to_arrow_struct_default protobuf payload schema []
        ≡ decode_to_arrow_struct_default protobuf payload' schema [])
    × (decode_to_otlp_kv_default protobuf payload schema []
        ≡ decode_to_otlp_kv_default protobuf payload' schema [])
unfolding is_classified find_meta
projections_hide_classified_example =
    projections_hide_classified protobuf-IsProtobuf schema [] [] [] payload-Reads payload'-Reads
      (refl, (λ h. cc), (refl, (λ h. cc), (refl, (λ h. refl), tt)))

payload-HasNoGroups : HasNoGroups payload-Reads
unfolding payload-Reads
payload-HasNoGroups = (refl, (refl, (refl, tt)))

scrub_payload-Reads_example :
    (result : Bytes) × (scrub_payload protobuf schema payload ≡ some (ok result))
    × Reads protobuf result (redact schema fields_of_payload)
scrub_payload-Reads_example =
    scrub_payload-Reads protobuf-IsProtobuf schema schema-HasShortNames payload-Reads
      payload-HasNoGroups

scrub_payload_leaks_nothing_example : All (IsSafe schema) fields_of_scrubbed
scrub_payload_leaks_nothing_example =
    scrub_payload_leaks_nothing protobuf-IsProtobuf schema schema-HasShortNames payload scrub_runs
      scrubbed-Reads
