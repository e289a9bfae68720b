-- ===== src/Wire/Scrubber/Leaks.antt =====
-- No classified value is left in what the scrubber writes.
use obs.Prelude.{
  ℕ, ◌≡◌, refl, true, Bool-cases, inl, inr, List, [], ◌∷◌, All, All-append, Bytes, ok, some,
}
use obs.Wire.Buffa.{Buffa, IsProtobuf}
use obs.Wire.Fields.{FieldMeta, find_meta, is_classified}
use obs.Wire.Payload.{RawValue}
use obs.Wire.Payload.Reads.{Field, Reads}
use obs.Wire.Payload.Walks.{Reads-unique}
use obs.Wire.Scrubber.{marker, scrub_payload}
use obs.Wire.Scrubber.Step.{redact_value}
use obs.Wire.Scrubber.Redacts.{HasShortNames, redact, scrub_payload_redacts}

-- A classified field holds the marker made from its name, and nothing else.
abbrev pub IsSafe : List FieldMeta → Field → Type 0
IsSafe fields f =
    is_classified (find_meta fields f.0) ≡ true
    → f.1 ≡ RawValue.bytes (marker (find_meta fields f.0))

redact_value-IsSafe :
    (fields : List FieldMeta) (n : ℕ) (v : RawValue)
    → All (IsSafe fields) (redact_value (find_meta fields n) n v)
unfolding redact_value
redact_value-IsSafe fields n (RawValue.bytes v) = ((λ c. rw c refl), tt)
redact_value-IsSafe fields n (RawValue.varint v) =
    elim (Bool-cases (is_classified (find_meta fields n))) [
      | inl c ↦ rw c tt
      | inr c ↦ rw c ((λ d. cc), tt)
    ]
redact_value-IsSafe fields n (RawValue.fixed64 v) =
    elim (Bool-cases (is_classified (find_meta fields n))) [
      | inl c ↦ rw c tt
      | inr c ↦ rw c ((λ d. cc), tt)
    ]
redact_value-IsSafe fields n (RawValue.fixed32 v) =
    elim (Bool-cases (is_classified (find_meta fields n))) [
      | inl c ↦ rw c tt
      | inr c ↦ rw c ((λ d. cc), tt)
    ]

redact-IsSafe : (fields : List FieldMeta) (fs : List Field) → All (IsSafe fields) (redact fields fs)
unfolding redact
redact-IsSafe fields [] = tt
redact-IsSafe fields ((n, v) ∷ fs) =
    All-append (IsSafe fields) _ _ (redact-IsSafe fields fs) (redact_value-IsSafe fields n v)

-- Every classified field that can be read from a scrubbed payload holds the marker made from its
-- name, whatever the payload was.
pub scrub_payload_leaks_nothing :
    {b : Buffa} (proto : IsProtobuf b) (fields : List FieldMeta) (short : HasShortNames fields)
    (payload : Bytes) {result : Bytes} {gs : List Field}
    → scrub_payload b fields payload ≡ some (ok result)
    → Reads b result gs
    → All (IsSafe fields) gs
scrub_payload_leaks_nothing proto fields short payload e r =
    let (fs, _, s) = scrub_payload_redacts proto fields short payload e in
    rw (Reads-unique proto r s) (redact-IsSafe fields fs)
