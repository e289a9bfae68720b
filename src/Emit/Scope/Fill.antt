-- ===== src/Emit/Scope/Fill.antt =====
-- What `auto_fill_envelope` and `active_correlation` take from the frames.
use obs.Prelude.{
  ◌≡◌, refl, sym, ap, ◌∙◌, inl, inr, false, Bool-cases, Option, none, some, Option-cases, List, [],
  ◌∷◌, ◌++◌, Text, text_eq, text_eq→eq, if◌then◌else◌, arith,
}
use obs.Emit.Envelope.{
  Envelope, lookup, contains_key, lookup-insert_label, lookup-insert_label_other,
}
use obs.Emit.Scope.{
  ScopeField, trace_id, span_id, parent_span_id, label, ScopeFrame, Stacks, active, is_empty,
  fill_field, fill_fields, fill_frames, auto_fill_envelope,
}

-- The fields of the frames, innermost first.
unfoldable pub fields_of : List ScopeFrame → List ScopeField
fields_of [] = []
fields_of (f ∷ fs) = f.fields ++ fields_of fs

-- The first text that is not empty.
unfoldable pub first_nonempty : Text → List Text → Text
first_nonempty t [] = t
first_nonempty t (u ∷ us) = let rest = first_nonempty u us in if is_empty t then rest else t

unfoldable pub trace_ids : List ScopeField → List Text
trace_ids [] = []
trace_ids (trace_id v ∷ fields) = v ∷ trace_ids fields
trace_ids (span_id v ∷ fields) = trace_ids fields
trace_ids (parent_span_id v ∷ fields) = trace_ids fields
trace_ids (label k v ∷ fields) = trace_ids fields

unfoldable pub span_ids : List ScopeField → List Text
span_ids [] = []
span_ids (trace_id v ∷ fields) = span_ids fields
span_ids (span_id v ∷ fields) = v ∷ span_ids fields
span_ids (parent_span_id v ∷ fields) = span_ids fields
span_ids (label k v ∷ fields) = span_ids fields

unfoldable pub parent_span_ids : List ScopeField → List Text
parent_span_ids [] = []
parent_span_ids (trace_id v ∷ fields) = parent_span_ids fields
parent_span_ids (span_id v ∷ fields) = parent_span_ids fields
parent_span_ids (parent_span_id v ∷ fields) = v ∷ parent_span_ids fields
parent_span_ids (label k v ∷ fields) = parent_span_ids fields

-- The value that a label has already, or the first one that a field gives it.
unfoldable pub label_value : Text → Option Text → List ScopeField → Option Text
label_value key (some v) fields = some v
label_value key none [] = none
label_value key none (trace_id v ∷ fields) = label_value key none fields
label_value key none (span_id v ∷ fields) = label_value key none fields
label_value key none (parent_span_id v ∷ fields) = label_value key none fields
label_value key none (label k v ∷ fields) =
    let rest = label_value key none fields in if text_eq k key then some v else rest

fill_fields-append :
    (a b : List ScopeField) (env : Envelope)
    → fill_fields (a ++ b) env ≡ fill_fields b (fill_fields a env)
unfolding fill_fields
fill_fields-append [] b env = refl
fill_fields-append (x ∷ a) b env = fill_fields-append a b (fill_field env x)

fill_frames-fields_of :
    (fs : List ScopeFrame) (env : Envelope) → fill_frames fs env ≡ fill_fields (fields_of fs) env
unfolding fill_frames fields_of fill_fields
fill_frames-fields_of [] env = refl
fill_frames-fields_of (f ∷ fs) env =
    fill_frames-fields_of fs (fill_fields f.fields env)
    ∙ sym (fill_fields-append f.fields (fields_of fs) env)

pub first_nonempty_kept : (t : Text) (us : List Text) → is_empty t ≡ false → first_nonempty t us ≡ t
unfolding first_nonempty
first_nonempty_kept t [] h = refl
first_nonempty_kept t (u ∷ us) h = rw h refl

fill-trace_id :
    (fields : List ScopeField) (env : Envelope)
    → (fill_fields fields env).trace_id ≡ first_nonempty env.trace_id (trace_ids fields)
unfolding fill_fields fill_field trace_ids first_nonempty
fill-trace_id [] env = refl
fill-trace_id (trace_id v ∷ fields) env = elim (Bool-cases (is_empty env.trace_id)) [
  | inl empty ↦
      rw (fill_fields, fill_field, empty) (fill-trace_id fields (record env { trace_id = v }))
  | inr set ↦
      rw (fill_fields, fill_field, set)
        (fill-trace_id fields env ∙ first_nonempty_kept env.trace_id (trace_ids fields) set)
]
fill-trace_id (span_id v ∷ fields) env =
    fill-trace_id fields (fill_field env (span_id v))
    ∙ ap (λ t. first_nonempty t (trace_ids fields)) (ground arith)
fill-trace_id (parent_span_id v ∷ fields) env =
    fill-trace_id fields (fill_field env (parent_span_id v))
    ∙ ap (λ t. first_nonempty t (trace_ids fields)) (ground arith)
fill-trace_id (label k v ∷ fields) env =
    fill-trace_id fields (fill_field env (label k v))
    ∙ ap (λ t. first_nonempty t (trace_ids fields)) (ground arith)

fill-span_id :
    (fields : List ScopeField) (env : Envelope)
    → (fill_fields fields env).span_id ≡ first_nonempty env.span_id (span_ids fields)
unfolding fill_fields fill_field span_ids first_nonempty
fill-span_id [] env = refl
fill-span_id (trace_id v ∷ fields) env =
    fill-span_id fields (fill_field env (trace_id v))
    ∙ ap (λ t. first_nonempty t (span_ids fields)) (ground arith)
fill-span_id (span_id v ∷ fields) env = elim (Bool-cases (is_empty env.span_id)) [
  | inl empty ↦
      rw (fill_fields, fill_field, empty) (fill-span_id fields (record env { span_id = v }))
  | inr set ↦
      rw (fill_fields, fill_field, set)
        (fill-span_id fields env ∙ first_nonempty_kept env.span_id (span_ids fields) set)
]
fill-span_id (parent_span_id v ∷ fields) env =
    fill-span_id fields (fill_field env (parent_span_id v))
    ∙ ap (λ t. first_nonempty t (span_ids fields)) (ground arith)
fill-span_id (label k v ∷ fields) env =
    fill-span_id fields (fill_field env (label k v))
    ∙ ap (λ t. first_nonempty t (span_ids fields)) (ground arith)

fill-parent_span_id :
    (fields : List ScopeField) (env : Envelope)
    → (fill_fields fields env).parent_span_id
      ≡ first_nonempty env.parent_span_id (parent_span_ids fields)
unfolding fill_fields fill_field parent_span_ids first_nonempty
fill-parent_span_id [] env = refl
fill-parent_span_id (trace_id v ∷ fields) env =
    fill-parent_span_id fields (fill_field env (trace_id v))
    ∙ ap (λ t. first_nonempty t (parent_span_ids fields)) (ground arith)
fill-parent_span_id (span_id v ∷ fields) env =
    fill-parent_span_id fields (fill_field env (span_id v))
    ∙ ap (λ t. first_nonempty t (parent_span_ids fields)) (ground arith)
fill-parent_span_id (parent_span_id v ∷ fields) env =
    elim (Bool-cases (is_empty env.parent_span_id)) [
      | inl empty ↦
          rw (fill_fields, fill_field, empty)
            (fill-parent_span_id fields (record env { parent_span_id = v }))
      | inr set ↦
          rw (fill_fields, fill_field, set)
            (fill-parent_span_id fields env
              ∙ first_nonempty_kept env.parent_span_id (parent_span_ids fields) set)
    ]
fill-parent_span_id (label k v ∷ fields) env =
    fill-parent_span_id fields (fill_field env (label k v))
    ∙ ap (λ t. first_nonempty t (parent_span_ids fields)) (ground arith)

label_value_kept :
    (key v : Text) (fields : List ScopeField) → label_value key (some v) fields ≡ some v
unfolding label_value
label_value_kept key v [] = refl
label_value_kept key v (field ∷ fields) = refl

label_value_nil : (key : Text) (o : Option Text) → label_value key o [] ≡ o
unfolding label_value
label_value_nil key none = refl
label_value_nil key (some v) = refl

-- The value of a label after a field that may give one.
or_label : Option Text → Text → Text → Text → Option Text
or_label (some u) k key v = some u
or_label none k key v = if text_eq k key then some v else none

label_value_step :
    (key : Text) (o : Option Text) (k v : Text) (fields : List ScopeField)
    → label_value key o (label k v ∷ fields) ≡ label_value key (or_label o k key v) fields
unfolding label_value or_label
label_value_step key none k v fields = ground (arith, label_value_kept key v fields)
label_value_step key (some u) k v fields = sym (label_value_kept key u fields)

fill-label :
    (env : Envelope) (k v key : Text)
    → lookup (fill_field env (label k v)).labels key ≡ or_label (lookup env.labels key) k key v
unfolding fill_field or_label contains_key
fill-label env k v key = elim (Option-cases (lookup env.labels k)) [
  | inr (u, found) ↦ elim (Option-cases (lookup env.labels key)) [
    | inr (w, e) ↦ ground (arith, found, e)
    | inl e ↦ ground (arith, found, e, text_eq→eq k key)
  ]
  | inl absent ↦ elim (Bool-cases (text_eq k key)) [
    | inl same ↦ ground (arith, absent, same, text_eq→eq k key, lookup-insert_label k v env.labels)
    | inr other ↦ elim (Option-cases (lookup env.labels key)) [
      | inr (w, e) ↦
          ground (arith, absent, other, e, lookup-insert_label_other k v key env.labels other)
      | inl e ↦ ground (arith, absent, other, e, lookup-insert_label_other k v key env.labels other)
    ]
  ]
]

label_value_trace_id :
    (key : Text) (o : Option Text) (v : Text) (fields : List ScopeField)
    → label_value key o (trace_id v ∷ fields) ≡ label_value key o fields
unfolding label_value
label_value_trace_id key none v fields = refl
label_value_trace_id key (some u) v fields = sym (label_value_kept key u fields)

label_value_span_id :
    (key : Text) (o : Option Text) (v : Text) (fields : List ScopeField)
    → label_value key o (span_id v ∷ fields) ≡ label_value key o fields
unfolding label_value
label_value_span_id key none v fields = refl
label_value_span_id key (some u) v fields = sym (label_value_kept key u fields)

label_value_parent_span_id :
    (key : Text) (o : Option Text) (v : Text) (fields : List ScopeField)
    → label_value key o (parent_span_id v ∷ fields) ≡ label_value key o fields
unfolding label_value
label_value_parent_span_id key none v fields = refl
label_value_parent_span_id key (some u) v fields = sym (label_value_kept key u fields)

fill-labels :
    (fields : List ScopeField) (env : Envelope) (key : Text)
    → lookup (fill_fields fields env).labels key ≡ label_value key (lookup env.labels key) fields
unfolding fill_fields fill_field
fill-labels [] env key = sym (label_value_nil key (lookup env.labels key))
fill-labels (trace_id v ∷ fields) env key =
    fill-labels fields (fill_field env (trace_id v)) key
    ∙ ap (λ l. label_value key (lookup l key) fields) (ground arith)
    ∙ sym (label_value_trace_id key (lookup env.labels key) v fields)
fill-labels (span_id v ∷ fields) env key =
    fill-labels fields (fill_field env (span_id v)) key
    ∙ ap (λ l. label_value key (lookup l key) fields) (ground arith)
    ∙ sym (label_value_span_id key (lookup env.labels key) v fields)
fill-labels (parent_span_id v ∷ fields) env key =
    fill-labels fields (fill_field env (parent_span_id v)) key
    ∙ ap (λ l. label_value key (lookup l key) fields) (ground arith)
    ∙ sym (label_value_parent_span_id key (lookup env.labels key) v fields)
fill-labels (label k v ∷ fields) env key =
    fill-labels fields (fill_field env (label k v)) key
    ∙ ap (λ o. label_value key o fields) (fill-label env k v key)
    ∙ sym (label_value_step key (lookup env.labels key) k v fields)

-- The envelope takes each id that it lacks from the innermost field that has one, keeps each that it
-- has, and takes each label that it lacks from the innermost field of that name.
pub auto_fill_envelope_lem :
    (s : Stacks) (env : Envelope) (key : Text)
    → ((auto_fill_envelope s env).trace_id
        ≡ first_nonempty env.trace_id (trace_ids (fields_of (active s))))
      × ((auto_fill_envelope s env).span_id
          ≡ first_nonempty env.span_id (span_ids (fields_of (active s))))
      × ((auto_fill_envelope s env).parent_span_id
          ≡ first_nonempty env.parent_span_id (parent_span_ids (fields_of (active s))))
      × (lookup (auto_fill_envelope s env).labels key
          ≡ label_value key (lookup env.labels key) (fields_of (active s)))
unfolding auto_fill_envelope
auto_fill_envelope_lem s env key =
    let fields = fields_of (active s) in
    rw (fill_frames-fields_of (active s) env) (
      fill-trace_id fields env,
      fill-span_id fields env,
      fill-parent_span_id fields env,
      fill-labels fields env key,
    )

fill_fields_keeps :
    (fields : List ScopeField) (env : Envelope)
    → ((fill_fields fields env).sampling_reason ≡ env.sampling_reason)
      × ((fill_fields fields env).payload ≡ env.payload)
      × ((fill_fields fields env).full_name ≡ env.full_name)
unfolding fill_fields fill_field
fill_fields_keeps [] env = (refl, refl, refl)
fill_fields_keeps (field ∷ fields) env =
    let (a, b, c) = fill_fields_keeps fields (fill_field env field) in
    let (a', b', c') = one field in (a ∙ a', b ∙ b', c ∙ c')
  where
    one :
        (field : ScopeField)
        → ((fill_field env field).sampling_reason ≡ env.sampling_reason)
          × ((fill_field env field).payload ≡ env.payload)
          × ((fill_field env field).full_name ≡ env.full_name)
    one (trace_id v) = (ground arith, ground arith, ground arith)
    one (span_id v) = (ground arith, ground arith, ground arith)
    one (parent_span_id v) = (ground arith, ground arith, ground arith)
    one (label k v) = (ground arith, ground arith, ground arith)

-- Nothing else is filled.
pub auto_fill_envelope_keeps :
    (s : Stacks) (env : Envelope)
    → ((auto_fill_envelope s env).sampling_reason ≡ env.sampling_reason)
      × ((auto_fill_envelope s env).payload ≡ env.payload)
      × ((auto_fill_envelope s env).full_name ≡ env.full_name)
unfolding auto_fill_envelope
auto_fill_envelope_keeps s env =
    rw (fill_frames-fields_of (active s) env) (fill_fields_keeps (fields_of (active s)) env)
