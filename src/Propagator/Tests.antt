-- ===== src/Propagator/Tests.antt =====
-- Headers as a list of names and values, and the theorems on contexts at concrete inputs.
use obs.Prelude.{
  ℕ, zero, suc, ◌≡◌, refl, Option, none, some, List, [], ◌∷◌, Text, text_eq, text_eq_refl,
  if◌then◌else◌,
}
use obs.Propagator.{
  ObsTraceCtx, Http, traceparent, tracestate_name, status_class, traceparent_of, extract_w3c,
  inject_w3c, in_range, is_hex, all, is_context, context_of, split, cons_first, text_of, state_of,
}
use obs.Propagator.RoundTrip.{
  IsHeaderMap, IsTraceCtx, left_state, is_visible, extract_w3c-inject_w3c,
}

abbrev Headers : Type 0
Headers = List (Text × Text)

unfoldable find : Headers → Text → Option Text
find [] name = none
find (h ∷ hs) name = let rest = find hs name in if text_eq h.0 name then some h.1 else rest

unfoldable visible_only : Text → Option Text
visible_only s = if all is_visible s then some s else none

unfoldable list_http : Http Headers Text
list_http = record {
  get = find;
  insert = λ hs name v. (name, v) ∷ hs;
  to_str = visible_only;
  from_str = visible_only;
}

list_http-IsHeaderMap : IsHeaderMap list_http
unfolding list_http visible_only find
list_http-IsHeaderMap = record {
  to_str-from_str = λ s h. (s, rw (visible_only, h) refl, rw (visible_only, h) refl);
  get-insert = λ hs name v. rw (find, text_eq_refl name) refl;
  get-insert_other = λ hs name other v h. rw (find, h) refl;
}

unfoldable ones : ℕ → Text
ones zero = []
ones (suc n) = b'1' ∷ ones n

abbrev context : ObsTraceCtx
context = record {
  trace_id = ones 32;
  span_id = ones 16;
  flags = b'0' ∷ b'1' ∷ [];
  tracestate = [];
}

context-IsTraceCtx : IsTraceCtx context
unfolding ones all is_hex in_range
context-IsTraceCtx = record {
  trace_id_length = refl;
  span_id_length = refl;
  flags_length = refl;
  trace_id_hex = refl;
  span_id_hex = refl;
  flags_hex = refl;
}

-- Headers that hold a tracestate from before.
abbrev old_headers : Headers
old_headers = (tracestate_name, b'k' ∷ b'=' ∷ b'v' ∷ []) ∷ []

extract_w3c-inject_w3c_example :
    extract_w3c list_http (inject_w3c list_http old_headers context)
    ≡ some record context { tracestate = left_state list_http [] old_headers }
unfolding all
extract_w3c-inject_w3c_example =
    extract_w3c-inject_w3c list_http list_http-IsHeaderMap old_headers context context-IsTraceCtx
      refl

full_headers-context :
    extract_w3c list_http ((traceparent, traceparent_of context) ∷ []) ≡ some context
unfolding extract_w3c text_of state_of list_http find visible_only traceparent_of ones all
    is_visible is_hex in_range split cons_first context_of is_context text_eq
full_headers-context = refl

classes :
    (status_class 199 ≡ b'1' ∷ b'x' ∷ b'x' ∷ []) × (status_class 600 ≡ b'e' ∷ b'r' ∷ b'r' ∷ [])
unfolding status_class in_range
classes = (refl, refl)
