-- ===== src/Propagator/Fresh.antt =====
-- The contexts that the code makes itself.
use obs.Prelude.{
  ℕ, ◌*◌, ◌/◌, ◌%◌, ◌<◌, ◌≡◌, refl, Bool, true, false, [], ◌∷◌, Bytes, length, take, length-take,
  All, arith,
}
use obs.Emit.CallsiteRegistry.Ids.{IsHash, All-take}
use obs.Propagator.{
  ObsTraceCtx, sampled_flags, sampled, hex_digit, to_hex, fresh_trace_id, fresh_span_id, fresh,
  child_of, in_range, is_hex, all,
}
use obs.Propagator.RoundTrip.{IsTraceCtx}

hex_digit-hex : (n : ℕ) → n < 16 → is_hex (hex_digit n) ≡ true
unfolding is_hex hex_digit in_range
hex_digit-hex n h = ground arith

to_hex-hex : (bs : Bytes) → All (λ b. b < 256) bs → all is_hex (to_hex bs) ≡ true
unfolding to_hex all
to_hex-hex [] h = refl
to_hex-hex (b ∷ bs) h =
    rw (all, hex_digit-hex (b / 16) (omega (arith, h.0)), hex_digit-hex (b % 16) (omega arith))
      (to_hex-hex bs h.1)

length-to_hex : (bs : Bytes) → length (to_hex bs) ≡ 2 * length bs
unfolding to_hex
length-to_hex [] = refl
length-to_hex (b ∷ bs) = omega (arith, length-to_hex bs)

hash_text :
    (blake3 : Bytes → Bytes) (n : ℕ) (seed : Bytes)
    → IsHash blake3
    → n < 33
    → (length (to_hex (take n (blake3 seed))) ≡ 2 * n)
      × (all is_hex (to_hex (take n (blake3 seed))) ≡ true)
hash_text blake3 n seed hash small =
    let raw = blake3 seed in
    (
      omega (arith, length-to_hex (take n raw), length-take n raw, hash.is_32 seed),
      to_hex-hex (take n raw) (All-take n raw (hash.are_bytes seed)),
    )

fresh_flags :
    (blake3 : Bytes → Bytes) (trace_seed span_seed : Bytes) (is_sampled : Bool)
    → let ctx = fresh blake3 trace_seed span_seed is_sampled in
      (length ctx.flags ≡ 2) × (all is_hex ctx.flags ≡ true) × (sampled ctx ≡ is_sampled)
unfolding fresh sampled sampled_flags all is_hex in_range
fresh_flags blake3 trace_seed span_seed true = (refl, refl, refl)
fresh_flags blake3 trace_seed span_seed false = (refl, refl, refl)

-- A fresh context has the documented shape and the sampling decision that was asked for.
pub fresh-IsTraceCtx :
    (blake3 : Bytes → Bytes) (trace_seed span_seed : Bytes) (is_sampled : Bool)
    → IsHash blake3
    → IsTraceCtx (fresh blake3 trace_seed span_seed is_sampled)
      × (sampled (fresh blake3 trace_seed span_seed is_sampled) ≡ is_sampled)
unfolding fresh fresh_trace_id fresh_span_id
fresh-IsTraceCtx blake3 trace_seed span_seed is_sampled hash =
    let trace = hash_text blake3 16 trace_seed hash (omega arith) in
    let span = hash_text blake3 8 span_seed hash (omega arith) in
    let (flags_length, flags_hex, decision) = fresh_flags blake3 trace_seed span_seed is_sampled in
    (
      record {
        trace_id_length = trace.0;
        span_id_length = span.0;
        flags_length = flags_length;
        trace_id_hex = trace.1;
        span_id_hex = span.1;
        flags_hex = flags_hex;
      },
      decision,
    )

-- A child of a context of the documented shape has it too, and has the trace, the sampling decision
-- and the tracestate of its parent.
pub child_of-IsTraceCtx :
    (blake3 : Bytes → Bytes) (seed : Bytes) (ctx : ObsTraceCtx)
    → IsHash blake3
    → IsTraceCtx ctx
    → IsTraceCtx (child_of blake3 seed ctx)
      × ((child_of blake3 seed ctx).trace_id ≡ ctx.trace_id)
      × (sampled (child_of blake3 seed ctx) ≡ sampled ctx)
      × ((child_of blake3 seed ctx).tracestate ≡ ctx.tracestate)
unfolding child_of fresh_span_id sampled
child_of-IsTraceCtx blake3 seed ctx hash shape =
    let span = hash_text blake3 8 seed hash (omega arith) in
    (
      record {
        trace_id_length = shape.trace_id_length;
        span_id_length = span.0;
        flags_length = shape.flags_length;
        trace_id_hex = shape.trace_id_hex;
        span_id_hex = span.1;
        flags_hex = shape.flags_hex;
      },
      refl,
      refl,
      refl,
    )
