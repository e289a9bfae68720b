-- ===== src/Emit/Scope/Correlation.antt =====
-- `active_correlation` against `auto_fill_envelope`.
use obs.Prelude.{◌≡◌, refl, ap, ◌∙◌, false, Option, none, some, List, [], ◌∷◌, ◌++◌, Text}
use obs.Emit.Envelope.{Envelope}
use obs.Emit.Scope.{
  ScopeField, trace_id, span_id, parent_span_id, label, ScopeFrame, Stacks, active, is_empty,
  auto_fill_envelope, correlate_field, correlate_fields, both, correlate_frames, active_correlation,
}
use obs.Emit.Scope.Fill.{
  fields_of, first_nonempty, first_nonempty_kept, trace_ids, span_ids, auto_fill_envelope_lem,
}

correlate_fields-append :
    (a b : List ScopeField) (ids : Option Text × Option Text)
    → correlate_fields (a ++ b) ids ≡ correlate_fields b (correlate_fields a ids)
unfolding correlate_fields
correlate_fields-append [] b ids = refl
correlate_fields-append (x ∷ a) b ids = correlate_fields-append a b (correlate_field ids x)

-- Once both ids are known no field changes them.
correlate_fields-both :
    (fields : List ScopeField) (t u : Text)
    → correlate_fields fields (some t, some u) ≡ (some t, some u)
unfolding correlate_fields correlate_field
correlate_fields-both [] t u = refl
correlate_fields-both (trace_id v ∷ fields) t u = correlate_fields-both fields t u
correlate_fields-both (span_id v ∷ fields) t u = correlate_fields-both fields t u
correlate_fields-both (parent_span_id v ∷ fields) t u = correlate_fields-both fields t u
correlate_fields-both (label k v ∷ fields) t u = correlate_fields-both fields t u

-- Ending the loop early makes no difference.
correlate_frames-fields_of :
    (fs : List ScopeFrame) (ids : Option Text × Option Text)
    → correlate_frames fs ids ≡ both (correlate_fields (fields_of fs) ids)
unfolding correlate_frames fields_of correlate_fields
correlate_frames-fields_of [] ids = refl
correlate_frames-fields_of (f ∷ fs) ids = rw (correlate_fields-append f.fields (fields_of fs) ids) (
    known (correlate_fields f.fields ids)
      (correlate_frames-fields_of fs (correlate_fields f.fields ids)))
  where
    known :
        (ids' : Option Text × Option Text)
        → correlate_frames fs ids' ≡ both (correlate_fields (fields_of fs) ids')
        → elim (both ids') [ some found ↦ some found | none ↦ correlate_frames fs ids' ]
          ≡ both (correlate_fields (fields_of fs) ids')
    known (none, u) h = h
    known (some t, none) h = h
    known (some t, some u) h = rw (correlate_fields-both (fields_of fs) t u) refl

first_of : Option Text → List Text → Option Text
first_of (some t) ts = some t
first_of none [] = none
first_of none (t ∷ ts) = some t

-- The ids after the fields: those from before, or the first ones.
correlate_fields_lem :
    (fields : List ScopeField) (t u : Option Text)
    → correlate_fields fields (t, u) ≡ (first_of t (trace_ids fields), first_of u (span_ids fields))
unfolding correlate_fields correlate_field first_of trace_ids span_ids
correlate_fields_lem [] none none = refl
correlate_fields_lem [] none (some u) = refl
correlate_fields_lem [] (some t) none = refl
correlate_fields_lem [] (some t) (some u) = refl
correlate_fields_lem (trace_id v ∷ fields) none u = correlate_fields_lem fields (some v) u
correlate_fields_lem (trace_id v ∷ fields) (some t) u = correlate_fields_lem fields (some t) u
correlate_fields_lem (span_id v ∷ fields) none none = correlate_fields_lem fields none (some v)
correlate_fields_lem (span_id v ∷ fields) (some t) none =
    correlate_fields_lem fields (some t) (some v)
correlate_fields_lem (span_id v ∷ fields) none (some u) = correlate_fields_lem fields none (some u)
correlate_fields_lem (span_id v ∷ fields) (some t) (some u) =
    correlate_fields_lem fields (some t) (some u)
correlate_fields_lem (parent_span_id v ∷ fields) t u = correlate_fields_lem fields t u
correlate_fields_lem (label k v ∷ fields) t u = correlate_fields_lem fields t u

first_of-nonempty :
    (t : Text) (ts : List Text)
    → first_of none ts ≡ some t
    → is_empty t ≡ false
    → first_nonempty [] ts ≡ t
unfolding first_of first_nonempty is_empty
first_of-nonempty t [] e h = absurd (cc)
first_of-nonempty t (x ∷ ts) e h = let same : x ≡ t = cc in rw same (first_nonempty_kept t ts h)

both-some :
    (a b : Option Text) (t u : Text) → both (a, b) ≡ some (t, u) → (a ≡ some t) × (b ≡ some u)
unfolding both
both-some none b t u e = absurd (cc)
both-some (some a) none t u e = absurd (cc)
both-some (some a) (some b) t u e = (cc, cc)

-- The ids that `active_correlation` gives, if they are not empty, are those that an envelope without
-- ids is filled with.
pub active_correlation_fills :
    (s : Stacks) (env : Envelope) (t u : Text)
    → active_correlation s ≡ some (t, u)
    → is_empty t ≡ false
    → is_empty u ≡ false
    → env.trace_id ≡ []
    → env.span_id ≡ []
    → ((auto_fill_envelope s env).trace_id ≡ t) × ((auto_fill_envelope s env).span_id ≡ u)
unfolding active_correlation
active_correlation_fills s env t u e ht hu no_trace no_span =
    let fields = fields_of (active s) in
    let (trace, span, _, _) = auto_fill_envelope_lem s env [] in
    let ids = rw (correlate_frames-fields_of, correlate_fields_lem) at e in
    let (a, b) =
      both-some (first_of none (trace_ids fields)) (first_of none (span_ids fields)) t u ids in
    (
      trace
          ∙ ap (λ i. first_nonempty i (trace_ids fields)) no_trace
          ∙ first_of-nonempty t (trace_ids fields) a ht,
      span
          ∙ ap (λ i. first_nonempty i (span_ids fields)) no_span
          ∙ first_of-nonempty u (span_ids fields) b hu,
    )
