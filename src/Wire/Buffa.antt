-- ===== src/Wire/Buffa.antt =====
-- What the code takes from the third-party `buffa` crate: field tags and length-delimited strings of
-- the protobuf wire format.
use obs.Prelude.{ℕ, ◌^◌, ◌≤◌, ◌<◌, ◌≡◌, Option, some, ◌++◌, length, Bytes}
use obs.Wire.Varint.{encode_raw_varint}

pub data WireType : Type 0 where
  varint fixed64 length_delimited start_group end_group fixed32 : WireType

-- `Tag::new(number, wire).encode(buf)`, `Tag::decode(&mut cursor)` and `types::encode_string(s, buf)`.
-- An encoder gives the bytes that it appends; the decoder gives what is left behind the tag.
pub record Buffa : Type 0 where
  pub encode_tag : ℕ → WireType → Bytes
  pub decode_tag : Bytes → Option (ℕ × WireType × Bytes)
  pub encode_string : Bytes → Bytes

abbrev pub IsFieldNumber : ℕ → Type 0
IsFieldNumber n = (1 ≤ n) × (n < 2 ^ 29)

-- The documented format: a tag is read back, is at least a byte long and has a field number in
-- range; a string is its length and its bytes.
pub record IsProtobuf (b : Buffa) : Type 0 where
  pub decode_tag-encode_tag :
      (n : ℕ) (w : WireType) (rest : Bytes)
      → IsFieldNumber n
      → b.decode_tag (b.encode_tag n w ++ rest) ≡ some (n, w, rest)
  pub decode_tag_takes :
      (src : Bytes) (n : ℕ) (w : WireType) (rest : Bytes)
      → b.decode_tag src ≡ some (n, w, rest)
      → IsFieldNumber n × (length rest < length src)
  pub encode_string_lem :
      (s : Bytes) → length s < 2 ^ 32 → b.encode_string s ≡ encode_raw_varint (length s) ++ s
