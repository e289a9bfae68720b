-- ===== src/Wire/Fields.antt =====
-- Field metadata: crates/obs-core/src/envelope/projection.rs, and the classification test of
-- crates/obs-core/src/registry/scrubber.rs and payload_decode.rs.
use obs.Prelude.{ℕ, Bool, true, false, Option, none, some, List, [], ◌∷◌, Text, ◌==◌, if◌then◌else◌}

pub data FieldRole : Type 0 where
  label attribute measurement trace_id span_id parent_span_id : FieldRole
  timestamp_ns duration_ns forensic : FieldRole

-- The generated `obs.v1.Cardinality` and `obs.v1.Classification`.
pub data Cardinality : Type 0 where
  unspecified low medium high unbounded : Cardinality

pub data Classification : Type 0 where
  unspecified internal pii secret : Classification

pub record FieldMeta : Type 0 where
  pub name : Text
  pub number : ℕ
  pub role : FieldRole
  pub cardinality : Cardinality
  pub classification : Classification

-- `fields.iter().find(|m| m.number == number)`
unfoldable pub find_meta : List FieldMeta → ℕ → Option FieldMeta
find_meta [] number = none
find_meta (m ∷ ms) number = if m.number == number then some m else find_meta ms number

-- `matches!(classification, Classification::Pii | Classification::Secret)`
unfoldable pub classified : Classification → Bool
classified Classification.unspecified = false
classified Classification.internal = false
classified Classification.pii = true
classified Classification.secret = true

-- The test of a looked-up field; a field that the schema does not declare is `Unspecified`.
unfoldable pub is_classified : Option FieldMeta → Bool
unfolding classified
is_classified none = false
is_classified (some m) = classified m.classification
