-- ===== src/Wire/Protobuf.antt =====
-- A wire format as the protobuf documentation describes it: what the code takes from `buffa` can be
-- had.
use obs.Prelude.{
  ℕ, ◌+◌, ◌*◌, ◌/◌, ◌%◌, ◌^◌, ◌<◌, ◌≡◌, refl, ap, ◌&&◌, Option, none, some, Option-cases, inl, inr,
  ◌++◌, Bytes, ltb, leb, ◌==◌, if◌then◌else◌, length, arith,
}
use obs.Wire.Varint.{decode_varint, encode_raw_varint}
use obs.Wire.Varint.RoundTrip.{decode_varint-encode_raw_varint}
use obs.Wire.Varint.Bounds.{decode_varint_takes}
use obs.Wire.Buffa.{Buffa, WireType, IsFieldNumber, IsProtobuf}

unfoldable pub wire_code : WireType → ℕ
wire_code WireType.varint = 0
wire_code WireType.fixed64 = 1
wire_code WireType.length_delimited = 2
wire_code WireType.start_group = 3
wire_code WireType.end_group = 4
wire_code WireType.fixed32 = 5

unfoldable pub wire_of_code : ℕ → Option WireType
wire_of_code c =
    if c == 0
    then some WireType.varint
    else if c == 1
    then some WireType.fixed64
    else if c == 2
    then some WireType.length_delimited
    else if c == 3
    then some WireType.start_group
    else if c == 4
    then some WireType.end_group
    else if c == 5
    then some WireType.fixed32
    else none

unfoldable pub split_key : ℕ → Bytes → Option (ℕ × WireType × Bytes)
split_key key rest = elim (wire_of_code (key % 8)) [
  | none ↦ none
  | some w ↦ if leb 8 key && ltb key (2 ^ 32) then some (key / 8, w, rest) else none
]

unfoldable pub read_tag : Bytes → Option (ℕ × WireType × Bytes)
unfolding split_key
read_tag src = elim (decode_varint src) [ none ↦ none | some (key, rest) ↦ split_key key rest ]

abbrev pub protobuf : Buffa
protobuf = record {
  encode_tag = λ n w. encode_raw_varint (n * 8 + wire_code w);
  decode_tag = read_tag;
  encode_string = λ s. encode_raw_varint (length s) ++ s;
}

wire_code-lt : (w : WireType) → wire_code w < 8
unfolding wire_code
wire_code-lt WireType.varint = omega arith
wire_code-lt WireType.fixed64 = omega arith
wire_code-lt WireType.length_delimited = omega arith
wire_code-lt WireType.start_group = omega arith
wire_code-lt WireType.end_group = omega arith
wire_code-lt WireType.fixed32 = omega arith

wire_of_code_lem : (w : WireType) → wire_of_code (wire_code w) ≡ some w
unfolding wire_code wire_of_code
wire_of_code_lem WireType.varint = refl
wire_of_code_lem WireType.fixed64 = refl
wire_of_code_lem WireType.length_delimited = refl
wire_of_code_lem WireType.start_group = refl
wire_of_code_lem WireType.end_group = refl
wire_of_code_lem WireType.fixed32 = refl

split_key_lem :
    (n : ℕ) (w : WireType) (rest : Bytes)
    → IsFieldNumber n
    → split_key (n * 8 + wire_code w) rest ≡ some (n, w, rest)
unfolding split_key
split_key_lem n w rest h =
    let low : (n * 8 + wire_code w) % 8 ≡ wire_code w = omega (arith, wire_code-lt w) in
    let high : (n * 8 + wire_code w) / 8 ≡ n = omega (arith, wire_code-lt w) in
    ground (arith, low, high, wire_of_code_lem w, ap wire_of_code low, wire_code-lt w)

read_tag-encode :
    (n : ℕ) (w : WireType) (rest : Bytes)
    → IsFieldNumber n
    → read_tag (encode_raw_varint (n * 8 + wire_code w) ++ rest) ≡ some (n, w, rest)
unfolding read_tag
read_tag-encode n w rest h =
    rw
      (
        decode_varint-encode_raw_varint (n * 8 + wire_code w) rest (omega (arith, wire_code-lt w)),
        read_tag,
      )
      (split_key_lem n w rest h)

read_tag_takes :
    (src : Bytes) (n : ℕ) (w : WireType) (rest : Bytes)
    → read_tag src ≡ some (n, w, rest)
    → IsFieldNumber n × (length rest < length src)
unfolding read_tag
read_tag_takes src n w rest e = elim (Option-cases (decode_varint src)) [
  | inl h ↦ absurd (ground (arith, h))
  | inr ((key, r), h) ↦ elim (Option-cases (wire_of_code (key % 8))) [
    | inl g ↦ absurd (ground (arith, h, g))
    | inr (w', g) ↦ ground (arith, h, g, decode_varint_takes src key r h)
  ]
]

pub protobuf-IsProtobuf : IsProtobuf protobuf
protobuf-IsProtobuf = record {
  decode_tag-encode_tag = read_tag-encode;
  decode_tag_takes = read_tag_takes;
  encode_string_lem = λ s h. refl;
}
