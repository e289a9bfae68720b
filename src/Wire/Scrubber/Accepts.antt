-- ===== src/Wire/Scrubber/Accepts.antt =====
-- Which payloads the scrubber accepts: those that hold fields and no groups.
use obs.Prelude.{
  ℕ, zero, suc, ◌≤◌, ◌≡◌, refl, some, Option, Option-cases, Bool, true, false, Bool-cases, inl, inr,
  List, [], ◌∷◌, ◌++◌, Bytes, ◌==◌, ltb, length, take, if◌then◌else◌, ok, arith,
}
use mathlib.Core.Path.{subst}
use obs.Wire.Varint.{decode_varint, encode_raw_varint}
use obs.Wire.Buffa.{Buffa, WireType, IsProtobuf}
use obs.Wire.Fields.{FieldMeta, find_meta, is_classified}
use obs.Wire.Payload.{RawValue, decode_fixed, decode_bytes, decode_field_value}
use obs.Wire.Payload.Reads.{Field, Reads, length-decode_field_value}
use obs.Wire.Payload.Walks.{Reads-unique}
use obs.Wire.Scrubber.{
  ScrubError, marker, scrub_fixed, scrub_bytes, scrub_field, scrub_loop, scrub_payload,
}
use obs.Wire.Scrubber.Step.{decode_varint_value_lem}
use obs.Wire.Scrubber.Redacts.{HasShortNames, redact, scrub_payload_redacts}

abbrev pub is_group : WireType → Bool
is_group WireType.start_group = true
is_group WireType.end_group = true
is_group WireType.varint = false
is_group WireType.fixed64 = false
is_group WireType.fixed32 = false
is_group WireType.length_delimited = false

-- No field of a payload opens or closes a group.
abbrev pub HasNoGroups :
    {b : Buffa} {payload : Bytes} {fs : List Field} → Reads b payload fs → Type 0
HasNoGroups Reads.end = Unit
HasNoGroups (Reads.field {w = w} off t e r) = (is_group w ≡ false) × HasNoGroups r

module _ (b : Buffa) (meta : Option FieldMeta) (n : ℕ) where
  scrub_fixed-accepts :
      (width : ℕ) (w : WireType) (x : ScrubError) (value : ℕ → RawValue) (mid : Bytes) (off : ℕ)
      {v : RawValue} {rest : Bytes} {off' : ℕ}
      → decode_fixed width value mid off ≡ ok (v, rest, off')
      → (out : Bytes) × (scrub_fixed b width w x meta n mid ≡ ok (out, rest))
  unfolding decode_fixed scrub_fixed
  scrub_fixed-accepts width w x value mid off e = elim (Bool-cases (ltb (length mid) width)) [
    | inl short ↦ absurd (ground (arith, short))
    | inr long ↦ (
      (if is_classified meta then [] else b.encode_tag n w ++ take width mid),
      ground (arith, long),
    )
  ]

  scrub_bytes-accepts :
      (len : ℕ) (mid : Bytes) (off : ℕ) {v : RawValue} {rest : Bytes} {off' : ℕ}
      → decode_bytes len mid off ≡ ok (v, rest, off')
      → (out : Bytes) × (scrub_bytes b meta n len mid ≡ ok (out, rest))
  unfolding decode_bytes scrub_bytes
  scrub_bytes-accepts len mid off e = elim (Bool-cases (ltb (length mid) len)) [
    | inl short ↦ absurd (ground (arith, short))
    | inr long ↦ (
      (if is_classified meta
          then b.encode_tag n WireType.length_delimited ++ b.encode_string (marker meta)
          else b.encode_tag n WireType.length_delimited ++ (encode_raw_varint len ++ take len mid)),
      ground (arith, long),
    )
  ]

  -- A value that the decoder reads is accepted by the scrubber, which leaves the same bytes.
  scrub_field-accepts :
      (w : WireType) (mid : Bytes) (off : ℕ) {v : RawValue} {rest : Bytes} {off' : ℕ}
      → is_group w ≡ false
      → decode_field_value mid w off ≡ ok (v, rest, off')
      → (out : Bytes) × (scrub_field b meta n w mid ≡ ok (out, rest))
  unfolding scrub_field decode_field_value
  scrub_field-accepts WireType.varint mid off plain e = elim (Option-cases (decode_varint mid)) [
    | inl h ↦ absurd (ground (arith, h))
    | inr ((v, r), h) ↦ (
      (if is_classified meta then [] else b.encode_tag n WireType.varint ++ encode_raw_varint v),
      ground (arith, h, decode_varint_value_lem mid),
    )
  ]
  scrub_field-accepts WireType.fixed64 mid off plain e =
      scrub_fixed-accepts 8 _ _ RawValue.fixed64 mid off e
  scrub_field-accepts WireType.fixed32 mid off plain e =
      scrub_fixed-accepts 4 _ _ RawValue.fixed32 mid off e
  scrub_field-accepts WireType.length_delimited mid off plain e =
      elim (Option-cases (decode_varint mid)) [
        | inl h ↦ absurd (ground (arith, h))
        | inr ((len, r), h) ↦
            let (out, q) = scrub_bytes-accepts len r _ (rw (h, decode_field_value) at e) in
            (out, rw (decode_varint_value_lem mid, h, scrub_field) q)
      ]
  scrub_field-accepts WireType.start_group mid off plain e = absurd (cc)
  scrub_field-accepts WireType.end_group mid off plain e = absurd (cc)

module _ {b : Buffa} (proto : IsProtobuf b) (fields : List FieldMeta) where
  scrub_loop-accepts :
      (fuel : ℕ) (src scratch : Bytes) {fs : List Field} (r : Reads b src fs)
      → HasNoGroups r
      → length src ≤ fuel
      → (result : Bytes) × (scrub_loop b fields fuel src scratch ≡ some (ok result))
  unfolding scrub_loop
  scrub_loop-accepts fuel [] scratch Reads.end plain h = (scratch, refl)
  scrub_loop-accepts fuel [] scratch (Reads.field off t e r) plain h =
      absurd (omega (arith, proto.decode_tag_takes [] _ _ _ t))
  scrub_loop-accepts zero (c ∷ cs) scratch r plain h = absurd (omega arith)
  scrub_loop-accepts (suc fuel) (c ∷ cs) scratch
        (Reads.field {mid = mid} {rest = rest} {n = n} {w = w} off t e r) plain h =
      let (out, q) = scrub_field-accepts b (find_meta fields n) n w mid off plain.0 e in
      let takes = (proto.decode_tag_takes _ n w mid t).1 in
      let less = length-decode_field_value mid w off e in
      let moved : (length rest == length (c ∷ cs)) ≡ false = ground (arith, takes, less) in
      let (result, ih) =
        scrub_loop-accepts fuel rest (scratch ++ out) r plain.1 (omega (arith, takes, less)) in
      (result, rw (scrub_loop, t, q, moved) ih)

-- On a payload that reads as a list of fields without groups the scrubber succeeds, and the scrubbed
-- bytes hold the same fields in order, with each classified text replaced by its marker, each
-- classified number left out, and all others as they were. The names of the fields are short texts.
pub scrub_payload-Reads :
    {b : Buffa} (proto : IsProtobuf b) (fields : List FieldMeta) (short : HasShortNames fields)
    {payload : Bytes} {fs : List Field} (r : Reads b payload fs)
    → HasNoGroups r
    → (result : Bytes) × (scrub_payload b fields payload ≡ some (ok result))
      × Reads b result (redact fields fs)
unfolding scrub_payload
scrub_payload-Reads {b} proto fields short {payload} {fs} r plain =
    let (result, e) =
      scrub_loop-accepts proto fields (length payload) payload [] r plain (omega arith) in
    let (gs, s, o) = scrub_payload_redacts proto fields short payload e in
    (result, e, subst (λ hs. Reads b result (redact fields hs)) (Reads-unique proto s r) o)
