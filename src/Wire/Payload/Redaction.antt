-- ===== src/Wire/Payload/Redaction.antt =====
-- The JSON, Arrow and OTLP projections show nothing of a classified value.
use obs.Prelude.{
  ℕ, ◌≡◌, refl, ap, true, false, Bool-cases, inl, inr, List, [], ◌∷◌, foldl, Bytes, arith,
}
use obs.Wire.Buffa.{Buffa, IsProtobuf}
use obs.Wire.Fields.{FieldMeta, find_meta, is_classified}
use obs.Wire.Payload.{RawValue, walk}
use obs.Wire.Payload.Reads.{Field, Reads}
use obs.Wire.Payload.Walks.{walk-Reads}
use obs.Wire.Payload.Project.{
  JsonMap, render_field, render_json_default, AppendCall, append_field, finish_row,
  decode_to_arrow_struct_default, OtlpKeyValues, push_field, decode_to_otlp_kv_default,
}

-- Two lists of fields that may differ in the values of classified fields alone.
abbrev pub Agree : List FieldMeta → List Field → List Field → Type 0
Agree fields [] [] = Unit
Agree fields [] (g ∷ gs) = ⊥
Agree fields (f ∷ fs) [] = ⊥
Agree fields (f ∷ fs) (g ∷ gs) =
    (f.0 ≡ g.0) × (is_classified (find_meta fields f.0) ≡ false → f.1 ≡ g.1) × Agree fields fs gs

-- An action that does not look at the value of a classified field.
abbrev IsBlind : {S : Type 0} → List FieldMeta → (S → ℕ → RawValue → S) → Type 0
IsBlind {S} fields act =
    (out : S) (n : ℕ) (u v : RawValue)
    → is_classified (find_meta fields n) ≡ true
    → act out n u ≡ act out n v

module _ (fields : List FieldMeta) {S : Type 0} (act : S → ℕ → RawValue → S)
    (blind : IsBlind fields act) where
  foldl-Agree :
      (fs gs : List Field) (out : S)
      → Agree fields fs gs
      → foldl (λ s f. act s f.0 f.1) out fs ≡ foldl (λ s f. act s f.0 f.1) out gs
  foldl-Agree [] [] out h = refl
  foldl-Agree [] (g ∷ gs) out h = absurd h
  foldl-Agree (f ∷ fs) [] out h = absurd h
  foldl-Agree ((n, u) ∷ fs) ((m, v) ∷ gs) out (e, same, h) =
      elim (Bool-cases (is_classified (find_meta fields n))) [
        | inl c ↦ rw (blind out n u v c, e) (foldl-Agree fs gs (act out m v) h)
        | inr c ↦ rw (same c, e) (foldl-Agree fs gs (act out m v) h)
      ]

  walk-Agree :
      {b : Buffa} (proto : IsProtobuf b) (out : S) {p q : Bytes} {fs gs : List Field}
      → Reads b p fs
      → Reads b q gs
      → Agree fields fs gs
      → walk b act out p ≡ walk b act out q
  walk-Agree proto out {fs = fs} {gs = gs} r s h =
      rw (walk-Reads proto act out r, walk-Reads proto act out s, foldl-Agree fs gs out h) refl

render_field-IsBlind : (fields : List FieldMeta) → IsBlind fields (render_field fields)
unfolding render_field is_classified
render_field-IsBlind fields out n u v c = ground arith

append_field-IsBlind : (fields : List FieldMeta) → IsBlind fields (append_field fields)
unfolding append_field is_classified
append_field-IsBlind fields out n u v c = ground arith

push_field-IsBlind : (fields : List FieldMeta) → IsBlind fields (push_field fields)
unfolding push_field is_classified
push_field-IsBlind fields out n u v c = ground arith

-- Two payloads that differ in the values of classified fields alone have the same JSON object, the
-- same Arrow calls and the same OTLP key-values.
pub projections_hide_classified :
    {b : Buffa} (proto : IsProtobuf b) (fields : List FieldMeta) {p q : Bytes} {fs gs : List Field}
    (json : JsonMap) (calls : List AppendCall) (kvs : OtlpKeyValues)
    → Reads b p fs
    → Reads b q gs
    → Agree fields fs gs
    → (render_json_default b p fields json ≡ render_json_default b q fields json)
      × (decode_to_arrow_struct_default b p fields calls
          ≡ decode_to_arrow_struct_default b q fields calls)
      × (decode_to_otlp_kv_default b p fields kvs ≡ decode_to_otlp_kv_default b q fields kvs)
unfolding render_json_default decode_to_arrow_struct_default decode_to_otlp_kv_default
projections_hide_classified {b} proto fields json calls kvs r s h = (
  walk-Agree fields (render_field fields) (render_field-IsBlind fields) proto json r s h,
  ap (finish_row b fields) (
      walk-Agree fields (append_field fields) (append_field-IsBlind fields) proto ([], calls) r s
        h),
  walk-Agree fields (push_field fields) (push_field-IsBlind fields) proto kvs r s h,
)
