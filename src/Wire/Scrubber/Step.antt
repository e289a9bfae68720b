-- ===== src/Wire/Scrubber/Step.antt =====
-- One field: what the scrubber writes for it is read back as the redacted field.
use obs.Prelude.{
  ℕ, zero, suc, ◌+◌, ◌^◌, ◌<◌, ◌≡◌, refl, ◌∙◌, Bool, true, false, Option, Option-cases, Bool-cases,
  inl, inr, List, [], ◌∷◌, ◌++◌, append_assoc, Bytes, ltb, if◌then◌else◌, length, take, drop,
  length-append, length-take, take-append, drop-append, Result, ok, arith,
}
use mathlib.Core.Path.{subst₂}
use obs.Wire.Varint.{add_group, decode_varint_loop, decode_varint, varint_len, encode_raw_varint}
use obs.Wire.Varint.RoundTrip.{decode_varint-encode_raw_varint}
use obs.Wire.Varint.Bounds.{decode_varint_takes}
use obs.Wire.Buffa.{Buffa, WireType, IsFieldNumber, IsProtobuf}
use obs.Wire.Fields.{FieldMeta, is_classified}
use obs.Wire.Payload.{RawValue, from_le_bytes, decode_fixed, decode_field_value}
use obs.Wire.Payload.Reads.{Field, Reads}
use obs.Wire.Scrubber.{
  ScrubError, decode_varint_value_loop, decode_varint_value, marker, scrub_fixed, scrub_bytes,
  scrub_field,
}

-- The two copies of the decoder agree.
decode_varint_value_loop_lem :
    (n value shift : ℕ) (buf : Bytes)
    → decode_varint_value_loop n value shift buf ≡ decode_varint_loop n value shift buf
unfolding decode_varint_value_loop decode_varint_loop
decode_varint_value_loop_lem zero value shift buf = refl
decode_varint_value_loop_lem (suc n) value shift [] = refl
decode_varint_value_loop_lem (suc n) value shift (byte ∷ buf) =
    rw (decode_varint_value_loop_lem n (add_group value byte shift) (shift + 7) buf) refl

pub decode_varint_value_lem : (buf : Bytes) → decode_varint_value buf ≡ decode_varint buf
unfolding decode_varint_value decode_varint
decode_varint_value_lem buf = decode_varint_value_loop_lem 10 0 0 buf

ok_pair :
    {E A B : Type 0} {a a' : A} {b b' : B}
    → (let r : Result E (A × B) = ok (a, b) in r) ≡ ok (a', b')
    → (a ≡ a') × (b ≡ b')
ok_pair e = (cc, cc)

-- What is left of a field: a classified number goes, a classified text becomes its marker.
unfoldable pub redact_value : Option FieldMeta → ℕ → RawValue → List Field
redact_value meta n (RawValue.bytes v) =
    (n, RawValue.bytes (if is_classified meta then marker meta else v)) ∷ []
redact_value meta n v = if is_classified meta then [] else (n, v) ∷ []

module _ {b : Buffa} (proto : IsProtobuf b) where
  -- Fields read from `out`, in front of those of `tail`.
  abbrev pub Writes : Bytes → List Field → Type 0
  Writes out fs =
      (tail : Bytes) (gs : List Field) → Reads b tail gs → Reads b (out ++ tail) (fs ++ gs)

  Writes-nil : Writes [] []
  Writes-nil tail gs r = r

  Writes-field :
      (n : ℕ) (w : WireType) (body : Bytes) (v : RawValue)
      → IsFieldNumber n
      → ((tail : Bytes) → (off' : ℕ) × (decode_field_value (body ++ tail) w 0 ≡ ok (v, tail, off')))
      → Writes (b.encode_tag n w ++ body) ((n, v) ∷ [])
  Writes-field n w body v hn back tail gs r =
      rw append_assoc
        (Reads.field 0 (proto.decode_tag-encode_tag n w (body ++ tail) hn) (back tail).1 r)

  back_varint :
      (v : ℕ) (tail : Bytes)
      → v < 2 ^ 64
      → (off' : ℕ) × (decode_field_value (encode_raw_varint v ++ tail) WireType.varint 0
          ≡ ok (RawValue.varint v, tail, off'))
  unfolding decode_field_value
  back_varint v tail h =
      (0 + varint_len v, ground (arith, decode_varint-encode_raw_varint v tail h))

  back_bytes :
      (body tail : Bytes)
      → length body < 2 ^ 64
      → (off' : ℕ) × (decode_field_value
            ((encode_raw_varint (length body) ++ body) ++ tail)
            WireType.length_delimited
            0
          ≡ ok (RawValue.bytes body, tail, off'))
  unfolding decode_field_value
  back_bytes body tail h = (
    0 + varint_len (length body) + length body,
    rw append_assoc (
        ground (
          arith,
          decode_varint-encode_raw_varint (length body) (body ++ tail) h,
          length-append body tail,
          take-append body tail,
          drop-append body tail,
        )),
  )

  back_fixed :
      (width : ℕ) (value : ℕ → RawValue) (body tail : Bytes)
      → length body ≡ width
      → decode_fixed width value (body ++ tail) 0 ≡ ok (value (from_le_bytes body), tail, 0 + width)
  unfolding decode_fixed
  back_fixed width value body tail h =
      rw (← h)
        (ground (arith, length-append body tail, take-append body tail, drop-append body tail))

  -- What one call of `scrub_field` does: the cursor moves as the decoder's does, and the bytes written
  -- hold the redacted field.
  abbrev pub Scrubs : Option FieldMeta → ℕ → WireType → Bytes → Bytes → Bytes → Type 0
  Scrubs meta n w cursor out rest =
      (v : RawValue) × (off' : ℕ) × (decode_field_value cursor w 0 ≡ ok (v, rest, off'))
      × Writes out (redact_value meta n v)

  module _ (meta : Option FieldMeta) (n : ℕ) (hn : IsFieldNumber n) where
    kept_or_dropped :
        (c : Bool) (w : WireType) (body : Bytes) (v : RawValue)
        → ((tail : Bytes)
            → (off' : ℕ) × (decode_field_value (body ++ tail) w 0 ≡ ok (v, tail, off')))
        → Writes (if c then [] else b.encode_tag n w ++ body) (if c then [] else (n, v) ∷ [])
    kept_or_dropped true w body v back = Writes-nil
    kept_or_dropped false w body v back = Writes-field n w body v hn back

    rejoin :
        (w : WireType) (cursor out0 rest0 : Bytes) {out rest : Bytes}
        → (let r : Result ScrubError (Bytes × Bytes) = ok (out0, rest0) in r) ≡ ok (out, rest)
        → Scrubs meta n w cursor out0 rest0
        → Scrubs meta n w cursor out rest
    rejoin w cursor out0 rest0 e s =
        let (p, q) = ok_pair e in subst₂ (λ o r. Scrubs meta n w cursor o r) p q s

    varint-Scrubs :
        (cursor : Bytes) {out rest : Bytes}
        → scrub_field b meta n WireType.varint cursor ≡ ok (out, rest)
        → Scrubs meta n WireType.varint cursor out rest
    unfolding scrub_field decode_field_value redact_value
    varint-Scrubs cursor e = elim (Option-cases (decode_varint cursor)) [
      | inl h ↦ absurd (ground (arith, h, decode_varint_value_lem cursor))
      | inr ((v, rest0), h) ↦
          rejoin WireType.varint cursor _ rest0
            (rw (decode_varint_value_lem cursor ∙ h, scrub_field) at e)
            (
              RawValue.varint v,
              0 + varint_len v,
              rw (h, decode_field_value) refl,
              kept_or_dropped (is_classified meta) WireType.varint (encode_raw_varint v)
                  (RawValue.varint v)
                  (λ tail. back_varint v tail (decode_varint_takes cursor v rest0 h).0),
            )
    ]

    fixed-Scrubs :
        (width : ℕ) (w : WireType) (x : ScrubError) (value : ℕ → RawValue) (cursor : Bytes)
        {out rest : Bytes}
        → ((c : Bytes) (off : ℕ) → decode_field_value c w off ≡ decode_fixed width value c off)
        → ((u : ℕ)
            → redact_value meta n (value u)
              ≡ (if is_classified meta then [] else (n, value u) ∷ []))
        → scrub_fixed b width w x meta n cursor ≡ ok (out, rest)
        → Scrubs meta n w cursor out rest
    unfolding scrub_fixed
    fixed-Scrubs width w x value cursor same kept e =
        elim (Bool-cases (ltb (length cursor) width)) [
          | inl short ↦ absurd (ground (arith, short))
          | inr enough ↦
              let full : length (take width cursor) ≡ width =
                ground (arith, length-take width cursor, enough) in
              rejoin w cursor
                (if is_classified meta then [] else b.encode_tag n w ++ take width cursor)
                (drop width cursor) (rw (enough, scrub_fixed) at e)
                (
                  value (from_le_bytes (take width cursor)),
                  0 + width,
                  same cursor 0 ∙ unfold decode_fixed in rw enough refl,
                  rw kept (
                      kept_or_dropped (is_classified meta) w (take width cursor)
                        (value (from_le_bytes (take width cursor)))
                        (λ tail. (
                          0 + width,
                          same _ 0 ∙ back_fixed width value (take width cursor) tail full,
                        ))),
                )
        ]

    back_text :
        (len : ℕ) (body tail : Bytes)
        → length body ≡ len
        → len < 2 ^ 64
        → (off' : ℕ) × (decode_field_value
              ((encode_raw_varint len ++ body) ++ tail)
              WireType.length_delimited
              0
            ≡ ok (RawValue.bytes body, tail, off'))
    back_text len body tail h small = rw (← h) (back_bytes body tail (rw h small))

    kept_or_marked :
        (c : Bool) (len : ℕ) (body : Bytes)
        → length body ≡ len
        → len < 2 ^ 64
        → length (marker meta) < 2 ^ 32
        → Writes
            (if c
              then b.encode_tag n WireType.length_delimited ++ b.encode_string (marker meta)
              else b.encode_tag n WireType.length_delimited ++ (encode_raw_varint len ++ body))
            ((n, RawValue.bytes (if c then marker meta else body)) ∷ [])
    kept_or_marked true len body h small short =
        rw (proto.encode_string_lem (marker meta) short)
          (Writes-field n _ _ _ hn (λ tail. back_bytes (marker meta) tail (omega arith)))
    kept_or_marked false len body h small short =
        Writes-field n _ _ _ hn (λ tail. back_text len body tail h small)

    bytes-Scrubs :
        (cursor : Bytes) {out rest : Bytes}
        → length (marker meta) < 2 ^ 32
        → scrub_field b meta n WireType.length_delimited cursor ≡ ok (out, rest)
        → Scrubs meta n WireType.length_delimited cursor out rest
    unfolding scrub_field decode_field_value redact_value
    bytes-Scrubs cursor small e = elim (Option-cases (decode_varint cursor)) [
      | inl h ↦ absurd (ground (arith, h, decode_varint_value_lem cursor))
      | inr ((len, r), h) ↦ elim (Bool-cases (ltb (length r) len)) [
        | inl short ↦ absurd (ground (arith, h, decode_varint_value_lem cursor, short))
        | inr enough ↦
            rejoin WireType.length_delimited cursor _ (drop len r)
              (rw (enough, scrub_bytes) at
                (rw (decode_varint_value_lem cursor ∙ h, scrub_field) at e))
              (
                RawValue.bytes (take len r),
                0 + varint_len len + len,
                ground (arith, h, enough),
                kept_or_marked (is_classified meta) len (take len r)
                    (ground (arith, length-take len r, enough))
                    (decode_varint_takes cursor len r h).0 small,
              )
      ]
    ]

    -- Where the scrubber accepts a field, the decoder reads a value there and leaves the same bytes,
    -- and what the scrubber writes holds that value redacted.
    pub scrub_field-Scrubs :
        (w : WireType) (cursor : Bytes) {out rest : Bytes}
        → length (marker meta) < 2 ^ 32
        → scrub_field b meta n w cursor ≡ ok (out, rest)
        → Scrubs meta n w cursor out rest
    unfolding scrub_field decode_field_value redact_value
    scrub_field-Scrubs WireType.varint cursor small e = varint-Scrubs cursor e
    scrub_field-Scrubs WireType.fixed64 cursor small e =
        fixed-Scrubs 8 WireType.fixed64 _ RawValue.fixed64 cursor (λ c off. refl) (λ u. refl) e
    scrub_field-Scrubs WireType.fixed32 cursor small e =
        fixed-Scrubs 4 WireType.fixed32 _ RawValue.fixed32 cursor (λ c off. refl) (λ u. refl) e
    scrub_field-Scrubs WireType.length_delimited cursor small e = bytes-Scrubs cursor small e
    scrub_field-Scrubs WireType.start_group cursor small e = absurd (ground arith)
    scrub_field-Scrubs WireType.end_group cursor small e = absurd (ground arith)
