-- ===== src/Propagator.antt =====
-- crates/obs-core/src/propagator.rs: the trace context of a request in its W3C headers.
pub mod RoundTrip
pub mod Fresh
mod Tests
use obs.Prelude.{
  ℕ, ◌+◌, ◌/◌, ◌%◌, Bytes, take, ltb, Bool, true, false, ◌&&◌, ◌||◌, ◌≡◌, Option, none, some, List,
  [], ◌∷◌, ◌++◌, Text, text_eq, length, leb, ◌==◌, if◌then◌else◌,
}

pub record ObsTraceCtx : Type 0 where
  pub trace_id : Text
  pub span_id : Text
  pub flags : Text
  pub tracestate : Text

-- What the code takes from the third-party `http` crate: a map of headers, and values in it.
pub record Http (Headers Value : Type 0) : Type 0 where
  pub get : Headers → Text → Option Value
  pub insert : Headers → Text → Value → Headers
  pub to_str : Value → Option Text
  pub from_str : Text → Option Value

abbrev pub traceparent : Text
traceparent = b't' ∷ b'r' ∷ b'a' ∷ b'c' ∷ b'e' ∷ b'p' ∷ b'a' ∷ b'r' ∷ b'e' ∷ b'n' ∷ b't' ∷ []

abbrev pub tracestate_name : Text
tracestate_name = b't' ∷ b'r' ∷ b'a' ∷ b'c' ∷ b'e' ∷ b's' ∷ b't' ∷ b'a' ∷ b't' ∷ b'e' ∷ []

-- `ends_with('1')`
unfoldable pub sampled_flags : Text → Bool
sampled_flags [] = false
sampled_flags (c ∷ []) = c == b'1'
sampled_flags (c ∷ d ∷ s) = sampled_flags (d ∷ s)

unfoldable pub sampled : ObsTraceCtx → Bool
unfolding sampled_flags
sampled ctx = sampled_flags ctx.flags

-- `{b:02x}`
unfoldable pub hex_digit : ℕ → ℕ
hex_digit n = if ltb n 10 then 48 + n else 87 + n

unfoldable pub to_hex : Bytes → Text
unfolding hex_digit
to_hex [] = []
to_hex (b ∷ bs) = hex_digit (b / 16) ∷ hex_digit (b % 16) ∷ to_hex bs

-- The ids from what the random source gives, where `blake3` is the third-party hash.
unfoldable pub fresh_trace_id : (Bytes → Bytes) → Bytes → Text
unfolding to_hex
fresh_trace_id blake3 seed = to_hex (take 16 (blake3 seed))

unfoldable pub fresh_span_id : (Bytes → Bytes) → Bytes → Text
unfolding to_hex
fresh_span_id blake3 seed = to_hex (take 8 (blake3 seed))

unfoldable pub fresh : (Bytes → Bytes) → Bytes → Bytes → Bool → ObsTraceCtx
unfolding fresh_trace_id fresh_span_id
fresh blake3 trace_seed span_seed is_sampled = record {
  trace_id = fresh_trace_id blake3 trace_seed;
  span_id = fresh_span_id blake3 span_seed;
  flags = if is_sampled then b'0' ∷ b'1' ∷ [] else b'0' ∷ b'0' ∷ [];
  tracestate = [];
}

unfoldable pub child_of : (Bytes → Bytes) → Bytes → ObsTraceCtx → ObsTraceCtx
unfolding fresh_span_id
child_of blake3 seed ctx = record ctx { span_id = fresh_span_id blake3 seed }

-- `str::split`
unfoldable pub cons_first : ℕ → List Text → List Text
cons_first c [] = (c ∷ []) ∷ []
cons_first c (part ∷ parts) = (c ∷ part) ∷ parts

unfoldable pub split : ℕ → Text → List Text
unfolding cons_first
split at [] = [] ∷ []
split at (c ∷ s) = let rest = split at s in if c == at then [] ∷ rest else cons_first c rest

unfoldable pub in_range : ℕ → ℕ → ℕ → Bool
in_range low high c = leb low c && leb c high

unfoldable pub is_hex : ℕ → Bool
unfolding in_range
is_hex c = in_range b'0' b'9' c || (in_range b'a' b'f' c || in_range b'A' b'F' c)

unfoldable pub all : (ℕ → Bool) → Text → Bool
all p [] = true
all p (c ∷ s) = p c && all p s

unfoldable pub is_context : Text → Text → Text → Text → Bool
unfolding is_hex all
is_context version trace_id span_id flags =
    text_eq version (b'0' ∷ b'0' ∷ [])
    && ((length trace_id == 32)
        && ((length span_id == 16)
            && ((length flags == 2)
                && (all is_hex trace_id && (all is_hex span_id && all is_hex flags)))))

-- The parts of the header and the other header's value, as a context; other numbers of parts give
-- none.
unfoldable pub context_of : List Text → Text → Option ObsTraceCtx
unfolding is_context
context_of (version ∷ trace_id ∷ span_id ∷ flags ∷ []) state =
    if is_context version trace_id span_id flags
    then some record { trace_id = trace_id; span_id = span_id; flags = flags; tracestate = state }
    else none
context_of (version ∷ trace_id ∷ span_id ∷ flags ∷ _ ∷ _) state = none
context_of (_ ∷ _ ∷ _ ∷ []) state = none
context_of (_ ∷ _ ∷ []) state = none
context_of (_ ∷ []) state = none
context_of [] state = none

unfoldable pub traceparent_of : ObsTraceCtx → Text
traceparent_of ctx =
    b'0' ∷ b'0' ∷ b'-' ∷ (ctx.trace_id ++ (b'-' ∷ (ctx.span_id ++ (b'-' ∷ ctx.flags))))

module _ {Headers Value : Type 0} (http : Http Headers Value) where
  unfoldable pub text_of : Headers → Text → Option Text
  text_of headers name = elim (http.get headers name) [ none ↦ none | some v ↦ http.to_str v ]

  unfoldable pub state_of : Headers → Text
  unfolding text_of
  state_of headers = elim (text_of headers tracestate_name) [ none ↦ [] | some s ↦ s ]

  unfoldable pub extract_w3c : Headers → Option ObsTraceCtx
  unfolding text_of state_of split context_of
  extract_w3c headers = elim (text_of headers traceparent) [
    | none ↦ none
    | some raw ↦ context_of (split b'-' raw) (state_of headers)
  ]

  -- `if let Ok(v) = HeaderValue::from_str(s) { headers.insert(name, v); }`
  unfoldable pub insert_text : Text → Text → Headers → Headers
  insert_text name s headers = elim (http.from_str s) [
    | none ↦ headers
    | some v ↦ http.insert headers name v
  ]

  unfoldable pub insert_state : Text → Headers → Headers
  unfolding insert_text
  insert_state [] headers = headers
  insert_state (c ∷ s) headers = insert_text tracestate_name (c ∷ s) headers

  unfoldable pub inject_w3c : Headers → ObsTraceCtx → Headers
  unfolding insert_text insert_state traceparent_of
  inject_w3c headers ctx =
      insert_state ctx.tracestate (insert_text traceparent (traceparent_of ctx) headers)

unfoldable pub status_class : ℕ → Text
unfolding in_range
status_class status =
    if in_range 100 199 status
    then b'1' ∷ b'x' ∷ b'x' ∷ []
    else if in_range 200 299 status
    then b'2' ∷ b'x' ∷ b'x' ∷ []
    else if in_range 300 399 status
    then b'3' ∷ b'x' ∷ b'x' ∷ []
    else if in_range 400 499 status
    then b'4' ∷ b'x' ∷ b'x' ∷ []
    else if in_range 500 599 status
    then b'5' ∷ b'x' ∷ b'x' ∷ []
    else b'e' ∷ b'r' ∷ b'r' ∷ []
