-- ===== src/Wire/Payload/Project.antt =====
-- The four projections of crates/obs-core/src/registry/payload_decode.rs: JSON, metrics, Arrow
-- columns and OTLP key-values.
use obs.Prelude.{
  ℕ, Bool, true, false, none, some, List, [], ◌∷◌, ◌++◌, Bytes, Text, text_eq, ◌==◌, if◌then◌else◌,
}
use obs.Wire.Fields.{FieldRole, FieldMeta, find_meta, classified}
use obs.Wire.Buffa.{Buffa}
use obs.Wire.Payload.{RawValue, Walk, done, truncated, diverged, walk}
use obs.Wire.Payload.Utf8.{from_utf8}

-- `f64::from_bits(n)`, and the widened `f32::from_bits(n)`, by their bits.
pub data Float : Type 0 where
  f64_bits : ℕ → Float
  f32_bits : ℕ → Float

-- `serde_json::Value`, as far as the projection builds it.
pub data Json : Type 0 where
  string : Text → Json
  number : ℕ → Json
  float : Float → Json
  array : List ℕ → Json

-- `"<redacted>"`
abbrev pub redacted_marker : Text
redacted_marker = b'<' ∷ b'r' ∷ b'e' ∷ b'd' ∷ b'a' ∷ b'c' ∷ b't' ∷ b'e' ∷ b'd' ∷ b'>' ∷ []

unfoldable pub value_to_json : RawValue → Json
value_to_json (RawValue.varint n) = number n
value_to_json (RawValue.fixed64 n) = float (f64_bits n)
value_to_json (RawValue.fixed32 n) = float (f32_bits n)
value_to_json (RawValue.bytes b) = elim (from_utf8 b) [ none ↦ array b | some s ↦ string s ]

abbrev pub JsonMap : Type 0
JsonMap = List (Text × Json)

-- `out.insert(name, json)`
unfoldable pub insert : Text → Json → JsonMap → JsonMap
insert name json [] = (name, json) ∷ []
insert name json ((k, v) ∷ out) =
    if text_eq k name then (k, json) ∷ out else (k, v) ∷ insert name json out

module _ (fields : List FieldMeta) where
  unfoldable pub render_field : JsonMap → ℕ → RawValue → JsonMap
  render_field out n value = elim (find_meta fields n) [
    | none ↦ out
    | some m ↦
        insert m.name
          (if classified m.classification then string redacted_marker else value_to_json value) out
  ]

-- A call on the `MetricEmitter`, with no unit.
pub data MetricCall : Type 0 where
  record_counter : Text → ℕ → MetricCall
  record_gauge_f64 : Text → Float → MetricCall

unfoldable pub record_metric : Text → RawValue → List MetricCall → List MetricCall
record_metric name (RawValue.varint v) sink = sink ++ (record_counter name v ∷ [])
record_metric name (RawValue.fixed64 v) sink = sink ++ (record_gauge_f64 name (f64_bits v) ∷ [])
record_metric name (RawValue.fixed32 v) sink = sink ++ (record_gauge_f64 name (f32_bits v) ∷ [])
record_metric name (RawValue.bytes b) sink = sink

unfoldable pub is_measurement : FieldRole → Bool
is_measurement FieldRole.measurement = true
is_measurement _ = false

module _ (fields : List FieldMeta) where
  unfoldable pub project_field : List MetricCall → ℕ → RawValue → List MetricCall
  unfolding is_measurement
  project_field sink n value = elim (find_meta fields n) [
    | none ↦ sink
    | some m ↦ if is_measurement m.role then record_metric m.name value sink else sink
  ]

-- A call on the `ArrowStructBuilder`; an i64 is its bit pattern.
pub data AppendCall : Type 0 where
  append_str : Text → Text → AppendCall
  append_u64 : Text → ℕ → AppendCall
  append_i64 : Text → ℕ → AppendCall
  append_f64 : Text → Float → AppendCall
  append_bytes : Text → Bytes → AppendCall
  append_field_null : Text → AppendCall

-- `FieldRole::Measurement | FieldRole::DurationNs | FieldRole::TimestampNs`
unfoldable pub is_counted : FieldRole → Bool
is_counted FieldRole.measurement = true
is_counted FieldRole.duration_ns = true
is_counted FieldRole.timestamp_ns = true
is_counted _ = false

unfoldable pub append_value : FieldMeta → RawValue → AppendCall
unfolding is_counted is_measurement
append_value m (RawValue.varint v) =
    if is_counted m.role then append_u64 m.name v else append_i64 m.name v
append_value m (RawValue.fixed64 v) =
    if is_counted m.role then append_u64 m.name v else append_f64 m.name (f64_bits v)
append_value m (RawValue.fixed32 v) =
    if is_measurement m.role then append_u64 m.name v else append_f64 m.name (f32_bits v)
append_value m (RawValue.bytes b) = elim (from_utf8 b) [
  | none ↦ append_bytes m.name b
  | some s ↦ append_str m.name s
]

-- `seen_numbers` and the calls made so far.
abbrev pub ArrowState : Type 0
ArrowState = List ℕ × List AppendCall

unfoldable pub contains : List ℕ → ℕ → Bool
contains [] n = false
contains (x ∷ xs) n = if x == n then true else contains xs n

unfoldable pub append_nulls : List FieldMeta → List ℕ → List AppendCall
append_nulls [] seen = []
append_nulls (f ∷ fs) seen =
    if contains seen f.number
    then append_nulls fs seen
    else append_field_null f.name ∷ append_nulls fs seen

module _ (fields : List FieldMeta) where
  unfoldable pub append_field : ArrowState → ℕ → RawValue → ArrowState
  append_field (seen, calls) n value = elim (find_meta fields n) [
    | none ↦ (seen, calls)
    | some m ↦ (
      seen ++ (m.number ∷ []),
      calls
          ++ ((if classified m.classification
                then append_str m.name redacted_marker
                else append_value m value)
              ∷ []),
    )
  ]

-- `OtlpValue`; an i64 is its bit pattern.
pub data OtlpValue : Type 0 where
  string : Text → OtlpValue
  int : ℕ → OtlpValue
  double : Float → OtlpValue
  bool : Bool → OtlpValue
  bytes : Bytes → OtlpValue

unfoldable pub raw_to_otlp : RawValue → OtlpValue
raw_to_otlp (RawValue.varint n) = OtlpValue.int n
raw_to_otlp (RawValue.fixed64 n) = OtlpValue.double (f64_bits n)
raw_to_otlp (RawValue.fixed32 n) = OtlpValue.double (f32_bits n)
raw_to_otlp (RawValue.bytes b) = elim (from_utf8 b) [
  | none ↦ OtlpValue.bytes b
  | some s ↦ OtlpValue.string s
]

unfoldable pub measurement_to_otlp : RawValue → OtlpValue
measurement_to_otlp (RawValue.varint v) = OtlpValue.int v
measurement_to_otlp (RawValue.fixed64 v) = OtlpValue.double (f64_bits v)
measurement_to_otlp (RawValue.fixed32 v) = OtlpValue.double (f32_bits v)
measurement_to_otlp (RawValue.bytes b) = raw_to_otlp (RawValue.bytes b)

abbrev pub OtlpKeyValues : Type 0
OtlpKeyValues = List (Text × OtlpValue)

module _ (fields : List FieldMeta) where
  unfoldable pub push_field : OtlpKeyValues → ℕ → RawValue → OtlpKeyValues
  unfolding is_measurement
  push_field out n value = elim (find_meta fields n) [
    | none ↦ out
    | some m ↦
        out
        ++ ((
          m.name,
          (if classified m.classification
              then OtlpValue.string redacted_marker
              else if is_measurement m.role
              then measurement_to_otlp value
              else raw_to_otlp value),
        )
            ∷ [])
  ]

module _ (b : Buffa) where
  unfoldable pub render_json_default : Bytes → List FieldMeta → JsonMap → Walk JsonMap
  render_json_default payload fields out = walk b (render_field fields) out payload

  unfoldable pub project_metrics_default :
      Bytes → List FieldMeta → List MetricCall → Walk (List MetricCall)
  project_metrics_default payload fields sink = walk b (project_field fields) sink payload

  unfoldable pub finish_row : List FieldMeta → Walk ArrowState → Walk (List AppendCall)
  finish_row fields (done (seen, calls)) = done (calls ++ append_nulls fields seen)
  finish_row fields (truncated offset (seen, calls)) = truncated offset calls
  finish_row fields diverged = diverged

  unfoldable pub decode_to_arrow_struct_default :
      Bytes → List FieldMeta → List AppendCall → Walk (List AppendCall)
  unfolding finish_row
  decode_to_arrow_struct_default payload fields calls =
      finish_row fields (walk b (append_field fields) ([], calls) payload)

  unfoldable pub decode_to_otlp_kv_default :
      Bytes → List FieldMeta → OtlpKeyValues → Walk OtlpKeyValues
  decode_to_otlp_kv_default payload fields out = walk b (push_field fields) out payload
