-- ===== src/Wire/Payload/Reads.antt =====
-- Which fields a payload holds, as a relation between bytes and records.
use obs.Prelude.{
  ℕ, ◌+◌, ◌≤◌, ◌≡◌, some, Option-cases, inl, inr, List, [], ◌∷◌, Bytes, length, length-drop, ok,
  arith,
}
use obs.Wire.Varint.{decode_varint, varint_len}
use obs.Wire.Varint.Bounds.{decode_varint_takes}
use obs.Wire.Buffa.{Buffa, WireType}
use obs.Wire.Payload.{RawValue, decode_field_value}

-- A field number and its value.
abbrev pub Field : Type 0
Field = ℕ × RawValue

pub data Reads (b : Buffa) : Bytes → List Field → Type 0 where
  end : Reads b [] []
  field :
      {src mid rest : Bytes} {n : ℕ} {w : WireType} (off : ℕ) {off' : ℕ} {v : RawValue}
      {fs : List Field}
      → b.decode_tag src ≡ some (n, w, mid)
      → decode_field_value mid w off ≡ ok (v, rest, off')
      → Reads b rest fs
      → Reads b src ((n, v) ∷ fs)

-- The offset is only counted: it changes neither the value nor what is left.
pub decode_field_value_offset :
    (mid : Bytes) (w : WireType) (off : ℕ) {v : RawValue} {rest : Bytes} {off' : ℕ} (off2 : ℕ)
    → decode_field_value mid w off ≡ ok (v, rest, off')
    → (off2' : ℕ) × (decode_field_value mid w off2 ≡ ok (v, rest, off2'))
unfolding decode_field_value
decode_field_value_offset mid WireType.varint off off2 e = elim (Option-cases (decode_varint mid)) [
  | inl h ↦ ground (arith, h)
  | inr ((n, r), h) ↦ (off2 + varint_len n, ground (arith, h))
]
decode_field_value_offset mid WireType.fixed64 off off2 e = (off2 + 8, ground arith)
decode_field_value_offset mid WireType.fixed32 off off2 e = (off2 + 4, ground arith)
decode_field_value_offset mid WireType.length_delimited off off2 e =
    elim (Option-cases (decode_varint mid)) [
      | inl h ↦ ground (arith, h)
      | inr ((n, r), h) ↦ (off2 + varint_len n + n, ground (arith, h))
    ]
decode_field_value_offset mid WireType.start_group off off2 e = (off2, ground arith)
decode_field_value_offset mid WireType.end_group off off2 e = (off2, ground arith)

pub length-decode_field_value :
    (mid : Bytes) (w : WireType) (off : ℕ) {v : RawValue} {rest : Bytes} {off' : ℕ}
    → decode_field_value mid w off ≡ ok (v, rest, off')
    → length rest ≤ length mid
unfolding decode_field_value
length-decode_field_value mid WireType.varint off e = elim (Option-cases (decode_varint mid)) [
  | inl h ↦ ground (arith, h)
  | inr ((n, r), h) ↦ ground (arith, h, decode_varint_takes mid n r)
]
length-decode_field_value mid WireType.fixed64 off e = ground (arith, length-drop 8 mid)
length-decode_field_value mid WireType.fixed32 off e = ground (arith, length-drop 4 mid)
length-decode_field_value mid WireType.length_delimited off e =
    elim (Option-cases (decode_varint mid)) [
      | inl h ↦ ground (arith, h)
      | inr ((n, r), h) ↦ ground (arith, h, decode_varint_takes mid n r, length-drop n r)
    ]
length-decode_field_value mid WireType.start_group off e = ground arith
length-decode_field_value mid WireType.end_group off e = ground arith
