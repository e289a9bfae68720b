-- ===== src/Batch/Ingress.antt =====
-- The sink's side of crates/obs-sink-batch/src/sink.rs: what `deliver` puts into the channel of the
-- worker, from an envelope with its scrubbed payload.
pub mod Raw
mod Tests
use obs.Prelude.{
  ℕ, ◌+◌, ◌-◌, ◌%◌, ◌^◌, bit_and, Bool, true, false, ◌&&◌, Option, none, some, List, [], ◌∷◌, ◌++◌,
  Bytes, length, ltb, ◌==◌, if◌then◌else◌,
}
use obs.Emit.Envelope.{Envelope}

-- `ScrubbedEnvelope` of crates/obs-core/src/registry/scrubbed.rs, less the schema.
pub record ScrubbedEnvelope : Type 0 where
  pub inner : Envelope
  pub payload : Bytes

-- `ScrubbedEnvelope::scrub`, where `scrub_for_log` is that of the schema, if one is found; `none`
-- for a payload that the scrubber refuses.
unfoldable pub scrub : Option (Bytes → Option Bytes) → Envelope → Option ScrubbedEnvelope
scrub none env = some record { inner = env; payload = env.payload }
scrub (some scrub_for_log) env = elim (scrub_for_log env.payload) [
  | none ↦ none
  | some payload ↦ some record { inner = env; payload = payload }
]

-- `envelope`
unfoldable pub envelope : ScrubbedEnvelope → Envelope
envelope s = s.inner

-- The channel with the counter of what it has refused, and the counts that were reported.
pub record Ingress : Type 0 where
  pub capacity : ℕ
  pub queue : List Envelope
  pub is_closed : Bool
  pub ingress_dropped : ℕ
  pub reported : List ℕ

unfoldable pub is_power_of_two : ℕ → Bool
is_power_of_two n = ltb 0 n && (bit_and n (n - 1) == 0)

unfoldable pub note_dropped : Ingress → Ingress
unfolding is_power_of_two
note_dropped i =
    let n = (i.ingress_dropped + 1) % 2 ^ 64 in
    record i {
      ingress_dropped = n;
      reported = if is_power_of_two n then i.reported ++ (n ∷ []) else i.reported;
    }

unfoldable pub deliver : ScrubbedEnvelope → Ingress → Ingress
unfolding envelope note_dropped
deliver env i =
    if i.is_closed
    then record i { ingress_dropped = (i.ingress_dropped + 1) % 2 ^ 64 }
    else if ltb (length i.queue) i.capacity
    then record i { queue = i.queue ++ (envelope env ∷ []) }
    else note_dropped i

unfoldable pub deliver_all : List ScrubbedEnvelope → Ingress → Ingress
unfolding deliver
deliver_all [] i = i
deliver_all (env ∷ envs) i = deliver_all envs (deliver env i)
