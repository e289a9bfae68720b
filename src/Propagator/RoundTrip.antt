-- ===== src/Propagator/RoundTrip.antt =====
-- What a context that is injected into headers is when it is extracted from them.
use obs.Prelude.{
  ℕ, ◌≡◌, refl, inl, inr, Bool, true, false, ◌&&◌, Bool-cases, some, Option-cases, List, [], ◌∷◌,
  ◌++◌, Text, text_eq, length, leb, ◌==◌, arith,
}
use mathlib.Core.Path.{subst}
use obs.Propagator.{
  ObsTraceCtx, Http, traceparent, tracestate_name, cons_first, split, in_range, is_hex, all,
  is_context, context_of, traceparent_of, text_of, state_of, extract_w3c, insert_text, insert_state,
  inject_w3c,
}

-- A visible ASCII character.
unfoldable pub is_visible : ℕ → Bool
is_visible c = leb 32 c && leb c 126

-- The documented behaviour of `http`: a value of visible characters is accepted and is read back, and
-- an inserted header is found and leaves those of other names.
pub record IsHeaderMap {Headers Value : Type 0} (http : Http Headers Value) : Type 0 where
  pub to_str-from_str :
      (s : Text)
      → all is_visible s ≡ true
      → (v : Value) × (http.from_str s ≡ some v) × (http.to_str v ≡ some s)
  pub get-insert :
      (h : Headers) (name : Text) (v : Value) → http.get (http.insert h name v) name ≡ some v
  pub get-insert_other :
      (h : Headers) (name other : Text) (v : Value)
      → text_eq name other ≡ false
      → http.get (http.insert h name v) other ≡ http.get h other

-- The documented shape of a context.
pub record IsTraceCtx (ctx : ObsTraceCtx) : Type 0 where
  pub trace_id_length : length ctx.trace_id ≡ 32
  pub span_id_length : length ctx.span_id ≡ 16
  pub flags_length : length ctx.flags ≡ 2
  pub trace_id_hex : all is_hex ctx.trace_id ≡ true
  pub span_id_hex : all is_hex ctx.span_id ≡ true
  pub flags_hex : all is_hex ctx.flags ≡ true

all-append : (p : ℕ → Bool) (s t : Text) → all p s ≡ true → all p t ≡ true → all p (s ++ t) ≡ true
unfolding all
all-append p [] t hs ht = ht
all-append p (c ∷ s) t hs ht = elim (Bool-cases (p c)) [
  | inl e ↦ rw (all, e) (all-append p s t (rw (all, e) at hs) ht)
  | inr e ↦ let never = rw (all, e) at hs in absurd (cc)
]

hex_visible : (c : ℕ) → is_hex c ≡ true → is_visible c ≡ true
unfolding is_hex in_range is_visible
hex_visible c h = ground (arith, h)

hex_dash : (c : ℕ) → is_hex c ≡ true → c == b'-' ≡ false
unfolding is_hex in_range
hex_dash c h = ground (arith, h)

all_visible : (s : Text) → all is_hex s ≡ true → all is_visible s ≡ true
unfolding all
all_visible [] h = refl
all_visible (c ∷ s) h = elim (Bool-cases (is_hex c)) [
  | inl e ↦ rw (all, hex_visible c e) (all_visible s (rw (all, e) at h))
  | inr e ↦ let never = rw (all, e) at h in absurd (cc)
]

split-hex :
    (s rest : Text) → all is_hex s ≡ true → split b'-' (s ++ (b'-' ∷ rest)) ≡ s ∷ split b'-' rest
unfolding all split cons_first
split-hex [] rest h = refl
split-hex (c ∷ s) rest h = elim (Bool-cases (is_hex c)) [
  | inl e ↦ rw (split, hex_dash c e, split-hex s rest (rw (all, e) at h)) refl
  | inr e ↦ let never = rw (all, e) at h in absurd (cc)
]

split-hex_last : (s : Text) → all is_hex s ≡ true → split b'-' s ≡ s ∷ []
unfolding all split cons_first
split-hex_last [] h = refl
split-hex_last (c ∷ s) h = elim (Bool-cases (is_hex c)) [
  | inl e ↦ rw (split, hex_dash c e, split-hex_last s (rw (all, e) at h)) refl
  | inr e ↦ let never = rw (all, e) at h in absurd (cc)
]

traceparent_of-visible :
    (ctx : ObsTraceCtx) → IsTraceCtx ctx → all is_visible (traceparent_of ctx) ≡ true
unfolding traceparent_of all is_visible
traceparent_of-visible ctx h =
    all-append is_visible ctx.trace_id (b'-' ∷ (ctx.span_id ++ (b'-' ∷ ctx.flags)))
      (all_visible ctx.trace_id h.trace_id_hex)
      (all-append is_visible ctx.span_id (b'-' ∷ ctx.flags) (all_visible ctx.span_id h.span_id_hex)
        (all_visible ctx.flags h.flags_hex))

context_of-traceparent_of :
    (ctx : ObsTraceCtx) (state : Text)
    → IsTraceCtx ctx
    → context_of (split b'-' (traceparent_of ctx)) state ≡ some record ctx { tracestate = state }
unfolding traceparent_of split cons_first context_of is_context text_eq
context_of-traceparent_of ctx state h =
    rw
      (
        split-hex ctx.trace_id (ctx.span_id ++ (b'-' ∷ ctx.flags)) h.trace_id_hex,
        split-hex ctx.span_id ctx.flags h.span_id_hex,
        split-hex_last ctx.flags h.flags_hex,
        h.trace_id_length,
        h.span_id_length,
        h.flags_length,
        h.trace_id_hex,
        h.span_id_hex,
        h.flags_hex,
      )
      refl

-- The tracestate that is found after an injection: an empty one leaves the old one in place.
unfoldable pub left_state : {Headers Value : Type 0} → Http Headers Value → Text → Headers → Text
left_state http [] headers = state_of http headers
left_state http (c ∷ s) headers = c ∷ s

module _ {Headers Value : Type 0} (http : Http Headers Value) (http_map : IsHeaderMap http) where
  insert_text_found :
      (name s : Text) (headers : Headers)
      → all is_visible s ≡ true
      → text_of http (insert_text http name s headers) name ≡ some s
  unfolding text_of insert_text
  insert_text_found name s headers h =
      let (v, accepted, read) = http_map.to_str-from_str s h in
      rw (insert_text, accepted, text_of, http_map.get-insert headers name v) read

  insert_text_other :
      (name other s : Text) (headers : Headers)
      → text_eq name other ≡ false
      → text_of http (insert_text http name s headers) other ≡ text_of http headers other
  unfolding text_of insert_text
  insert_text_other name other s headers h = elim (Option-cases (http.from_str s)) [
    | inl e ↦ rw (insert_text, e) refl
    | inr (v, e) ↦
        rw (insert_text, e, text_of, http_map.get-insert_other headers name other v h) refl
  ]

  insert_state-parent :
      (state : Text) (headers : Headers)
      → text_of http (insert_state http state headers) traceparent
        ≡ text_of http headers traceparent
  unfolding insert_state text_eq
  insert_state-parent [] headers = refl
  insert_state-parent (c ∷ s) headers =
      insert_text_other tracestate_name traceparent (c ∷ s) headers refl

  state_of-insert_state :
      (state parent : Text) (headers : Headers)
      → all is_visible state ≡ true
      → state_of http (insert_state http state (insert_text http traceparent parent headers))
        ≡ left_state http state headers
  unfolding insert_state state_of left_state text_eq
  state_of-insert_state [] parent headers h =
      rw (state_of, insert_text_other traceparent tracestate_name parent headers refl) refl
  state_of-insert_state (c ∷ s) parent headers h =
      rw
        (
          state_of,
          insert_text_found tracestate_name (c ∷ s) (insert_text http traceparent parent headers) h,
        )
        refl

  -- A context of the documented shape, with a visible tracestate, is read back from the headers that it
  -- is injected into; with an empty tracestate, it comes with the one that the headers had before.
  pub extract_w3c-inject_w3c :
      (headers : Headers) (ctx : ObsTraceCtx)
      → IsTraceCtx ctx
      → all is_visible ctx.tracestate ≡ true
      → extract_w3c http (inject_w3c http headers ctx)
        ≡ some record ctx { tracestate = left_state http ctx.tracestate headers }
  unfolding extract_w3c inject_w3c
  extract_w3c-inject_w3c headers ctx shape visible =
      let with_parent = insert_text http traceparent (traceparent_of ctx) headers in
      rw
        (
          extract_w3c,
          inject_w3c,
          insert_state-parent ctx.tracestate with_parent,
          insert_text_found traceparent (traceparent_of ctx) headers
              (traceparent_of-visible ctx shape),
          state_of-insert_state ctx.tracestate (traceparent_of ctx) headers visible,
        )
        (context_of-traceparent_of ctx (left_state http ctx.tracestate headers) shape)

parts_of-IsTraceCtx :
    (version trace_id span_id flags state : Text)
    → is_context version trace_id span_id flags ≡ true
    → IsTraceCtx
        record { trace_id = trace_id; span_id = span_id; flags = flags; tracestate = state }
unfolding is_context
parts_of-IsTraceCtx version trace_id span_id flags state h = record {
  trace_id_length = ground (arith, h);
  span_id_length = ground (arith, h);
  flags_length = ground (arith, h);
  trace_id_hex = ground (arith, h);
  span_id_hex = ground (arith, h);
  flags_hex = ground (arith, h);
}

context_of-IsTraceCtx :
    (parts : List Text) (state : Text) (ctx : ObsTraceCtx)
    → context_of parts state ≡ some ctx
    → IsTraceCtx ctx
unfolding context_of
context_of-IsTraceCtx [] state ctx h = absurd (cc)
context_of-IsTraceCtx (version ∷ []) state ctx h = absurd (cc)
context_of-IsTraceCtx (version ∷ trace_id ∷ []) state ctx h = absurd (cc)
context_of-IsTraceCtx (version ∷ trace_id ∷ span_id ∷ []) state ctx h = absurd (cc)
context_of-IsTraceCtx (version ∷ trace_id ∷ span_id ∷ flags ∷ extra ∷ more) state ctx h =
    absurd (cc)
context_of-IsTraceCtx (version ∷ trace_id ∷ span_id ∷ flags ∷ []) state ctx h =
    elim (Bool-cases (is_context version trace_id span_id flags)) [
      | inl e ↦
          let is_ctx = rw (context_of, e) at h in
          let same : record {
            trace_id = trace_id;
            span_id = span_id;
            flags = flags;
            tracestate = state;
          }
              ≡ ctx =
            cc in
          subst IsTraceCtx same (parts_of-IsTraceCtx version trace_id span_id flags state e)
      | inr e ↦ let never = rw (context_of, e) at h in absurd (cc)
    ]

-- A context that is extracted has the documented shape, whatever the headers are.
pub extract_w3c-IsTraceCtx :
    {Headers Value : Type 0} (http : Http Headers Value) (headers : Headers) (ctx : ObsTraceCtx)
    → extract_w3c http headers ≡ some ctx
    → IsTraceCtx ctx
unfolding extract_w3c
extract_w3c-IsTraceCtx http headers ctx h = elim (Option-cases (text_of http headers traceparent)) [
  | inl e ↦ let never = rw (extract_w3c, e) at h in absurd (cc)
  | inr (raw, e) ↦
      context_of-IsTraceCtx (split b'-' raw) (state_of http headers) ctx (rw (extract_w3c, e) at h)
]
