-- ===== src/Emit/Envelope.antt =====
-- The parts of the generated `obs.v1.ObsEnvelope` that the emit path of crates/obs-core reads or writes.
use obs.Prelude.{
  ℕ, Bool, true, false, Option, none, some, List, [], ◌∷◌, Bytes, Text, text_eq, if◌then◌else◌, ◌≡◌,
  text_eq_refl, text_eq→eq, arith,
}
use obs.Emit.Severity.{Severity}

-- `SamplingReason`; `unknown` is `EnumValue::Unknown`.
pub data SamplingReason : Type 0 where
  unspecified head_rate tail_error slow forensic audit runtime override : SamplingReason
  unknown : ℕ → SamplingReason

-- A map from keys to values; the code never asks for its order.
abbrev pub Labels : Type 0
Labels = List (Text × Text)

unfoldable pub lookup : Labels → Text → Option Text
lookup [] key = none
lookup ((k, v) ∷ labels) key =
    let rest = lookup labels key in if text_eq k key then some v else rest

-- `labels.insert` replaces the value of a key that is there.
unfoldable pub insert_label : Text → Text → Labels → Labels
insert_label key value [] = (key, value) ∷ []
insert_label key value ((k, v) ∷ labels) =
    let rest = insert_label key value labels in
    if text_eq k key then (k, value) ∷ labels else (k, v) ∷ rest

unfoldable pub contains_key : Labels → Text → Bool
unfolding lookup
contains_key labels key = elim (lookup labels key) [ none ↦ false | some v ↦ true ]

pub record Envelope : Type 0 where
  pub full_name : Text
  pub severity : Severity
  pub trace_id : Text
  pub span_id : Text
  pub parent_span_id : Text
  pub labels : Labels
  pub payload : Bytes
  pub sampling_reason : SamplingReason

pub lookup-insert_label :
    (key value : Text) (labels : Labels) → lookup (insert_label key value labels) key ≡ some value
unfolding lookup insert_label
lookup-insert_label key value [] = ground (arith, text_eq_refl key)
lookup-insert_label key value ((k, v) ∷ labels) =
    ground (arith, lookup-insert_label key value labels)

pub lookup-insert_label_other :
    (key value other : Text) (labels : Labels)
    → text_eq key other ≡ false
    → lookup (insert_label key value labels) other ≡ lookup labels other
unfolding lookup insert_label
lookup-insert_label_other key value other [] h = ground (arith, h)
lookup-insert_label_other key value other ((k, v) ∷ labels) h =
    ground (arith, h, lookup-insert_label_other key value other labels h, text_eq→eq k key)
