-- ===== src/Wire/Scrubber/Redacts.antt =====
-- The scrubber's loop: a scrubbed payload holds the fields of the original, redacted.
use obs.Prelude.{
  ℕ, zero, suc, ◌^◌, ◌≤◌, ◌<◌, ◌≡◌, refl, sym, ◌∙◌, some, Option-cases, Bool-cases, inl, inr, ◌⊎◌,
  List, [], ◌∷◌, ◌++◌, append_assoc, append-nil, Bytes, ◌==◌, length, Result, ok, err, arith,
}
use mathlib.Core.Path.{subst}
use obs.Wire.Buffa.{Buffa, IsProtobuf}
use obs.Wire.Fields.{FieldMeta, find_meta}
use obs.Wire.Payload.Reads.{Field, Reads, length-decode_field_value}
use obs.Wire.Scrubber.{ScrubError, tag, no_progress, marker, scrub_field, scrub_loop, scrub_payload}
use obs.Wire.Scrubber.Step.{redact_value, scrub_field-Scrubs}

-- A field name of the schema, with `<redacted-` and `>` round it, is a short text.
abbrev pub HasShortNames : List FieldMeta → Type 0
HasShortNames fields = (n : ℕ) → length (marker (find_meta fields n)) < 2 ^ 32

-- The fields that a scrubbed payload should hold.
unfoldable pub redact : List FieldMeta → List Field → List Field
redact fields [] = []
redact fields ((n, v) ∷ fs) = redact_value (find_meta fields n) n v ++ redact fields fs

Scrubbed-cases :
    (r : Result ScrubError (Bytes × Bytes))
    → ((e : ScrubError) × (r ≡ err e)) ⊎ ((out rest : Bytes) × (r ≡ ok (out, rest)))
Scrubbed-cases (err e) = inl (e, refl)
Scrubbed-cases (ok (out, rest)) = inr (out, rest, refl)

module _ {b : Buffa} (proto : IsProtobuf b) (fields : List FieldMeta)
    (short : HasShortNames fields) where
  scrub_loop_redacts :
      (fuel : ℕ) (src scratch : Bytes) {result : Bytes}
      → scrub_loop b fields fuel src scratch ≡ some (ok result)
      → (fs : List Field) × (out : Bytes) × (result ≡ scratch ++ out)
        × Reads b src fs
        × Reads b out (redact fields fs)
  unfolding scrub_loop redact
  scrub_loop_redacts fuel [] scratch e = ([], [], cc (append-nil scratch), Reads.end, Reads.end)
  scrub_loop_redacts zero (c ∷ cs) scratch e = absurd (cc)
  scrub_loop_redacts (suc fuel) (c ∷ cs) scratch {result} e =
      elim (Option-cases (b.decode_tag (c ∷ cs))) [
        | inl t ↦ absurd (ground (arith, t))
        | inr ((n, w, mid), t) ↦
            elim (Scrubbed-cases (scrub_field b (find_meta fields n) n w mid)) [
              | inl (x, h) ↦ absurd (ground (arith, t, h))
              | inr (o, rest, h) ↦ elim (Bool-cases (length rest == length (c ∷ cs))) [
                | inl stuck ↦ absurd (ground (arith, t, h, stuck))
                | inr moved ↦
                    let (fs, out, q, r, s) =
                      scrub_loop_redacts fuel rest (scratch ++ o) (ground (arith, t, h, moved)) in
                    let (v, off', d, writes) =
                      scrub_field-Scrubs proto (find_meta fields n) n
                        (proto.decode_tag_takes _ n w mid t).0 w mid (short n) h in
                    (
                      (n, v) ∷ fs,
                      o ++ out,
                      q ∙ append_assoc scratch o out,
                      Reads.field 0 t d r,
                      writes out (redact fields fs) s,
                    )
              ]
            ]
      ]

  scrub_loop_ends :
      (fuel : ℕ) (src scratch : Bytes)
      → length src ≤ fuel
      → (r : Result ScrubError Bytes) × (scrub_loop b fields fuel src scratch ≡ some r)
  unfolding scrub_loop
  scrub_loop_ends fuel [] scratch h = (ok scratch, refl)
  scrub_loop_ends zero (c ∷ cs) scratch h = absurd (omega arith)
  scrub_loop_ends (suc fuel) (c ∷ cs) scratch h = elim (Option-cases (b.decode_tag (c ∷ cs))) [
    | inl t ↦ (err tag, ground (arith, t))
    | inr ((n, w, mid), t) ↦ elim (Scrubbed-cases (scrub_field b (find_meta fields n) n w mid)) [
      | inl (x, q) ↦ (err x, ground (arith, t, q))
      | inr (o, rest, q) ↦ elim (Bool-cases (length rest == length (c ∷ cs))) [
        | inl stuck ↦ (err no_progress, ground (arith, t, q, stuck))
        | inr moved ↦
            let (v, off', d, writes) =
              scrub_field-Scrubs proto (find_meta fields n) n (proto.decode_tag_takes _ n w mid t).0
                w mid (short n) q in
            let (r, ih) = scrub_loop_ends fuel rest (scratch ++ o) (
              omega
                (arith, proto.decode_tag_takes _ n w mid t, length-decode_field_value mid w 0 d)) in
            (r, ground (arith, t, q, moved, ih))
      ]
    ]
  ]

-- The scrubber ends on every payload: with the scrubbed bytes, or with an error.
pub scrub_payload_ends :
    {b : Buffa} (proto : IsProtobuf b) (fields : List FieldMeta) (short : HasShortNames fields)
    (payload : Bytes)
    → (r : Result ScrubError Bytes) × (scrub_payload b fields payload ≡ some r)
unfolding scrub_payload
scrub_payload_ends proto fields short payload =
    scrub_loop_ends proto fields short _ payload [] (omega arith)

-- Where the scrubber accepts a payload, the payload holds some fields, and the scrubbed bytes hold
-- the same fields in order with each classified text replaced by its marker, each classified
-- number left out, and all others as they were.
pub scrub_payload_redacts :
    {b : Buffa} (proto : IsProtobuf b) (fields : List FieldMeta) (short : HasShortNames fields)
    (payload : Bytes) {result : Bytes}
    → scrub_payload b fields payload ≡ some (ok result)
    → (fs : List Field) × Reads b payload fs × Reads b result (redact fields fs)
unfolding scrub_payload
scrub_payload_redacts {b} proto fields short payload e =
    let (fs, out, q, r, s) = scrub_loop_redacts proto fields short _ payload [] e in
    (fs, r, subst (λ o. Reads b o (redact fields fs)) (sym q) s)
