-- ===== src/Batch/Ingress/Tests.antt =====
-- The theorem on the channel of the sink at a concrete input, and the payload that it carries.
use obs.Prelude.{◌≡◌, refl, false, some, [], ◌∷◌, map}
use obs.Prelude.Bounded.{filled}
use obs.Emit.Severity.{Severity}
use obs.Emit.Envelope.{SamplingReason, Envelope}
use obs.Batch.Ingress.{
  ScrubbedEnvelope, envelope, Ingress, is_power_of_two, note_dropped, deliver, deliver_all, scrub,
}
use obs.Batch.Ingress.Raw.{deliver_all_raw}

abbrev secret : Envelope
secret = record {
  full_name = [];
  severity = Severity.info;
  trace_id = [];
  span_id = [];
  parent_span_id = [];
  labels = [];
  payload = 1 ∷ 2 ∷ [];
  sampling_reason = SamplingReason.unspecified;
}

abbrev scrubbed : ScrubbedEnvelope
scrubbed = record { inner = secret; payload = 1 ∷ [] }

abbrev ingress : Ingress
ingress = record { capacity = 2; queue = []; is_closed = false; ingress_dropped = 0; reported = [] }

secret_is_scrubbed : scrub (some (λ payload. some (1 ∷ []))) secret ≡ some scrubbed
unfolding scrub
secret_is_scrubbed = refl

deliver_all_raw_example :
    (deliver_all (scrubbed ∷ scrubbed ∷ scrubbed ∷ []) ingress).queue
    ≡ filled 2 [] (map (λ s. s.inner) (scrubbed ∷ scrubbed ∷ scrubbed ∷ []))
deliver_all_raw_example = deliver_all_raw (scrubbed ∷ scrubbed ∷ scrubbed ∷ []) ingress refl

drops : (deliver_all (scrubbed ∷ scrubbed ∷ scrubbed ∷ []) ingress).reported ≡ 1 ∷ []
unfolding deliver_all deliver note_dropped envelope is_power_of_two
drops = refl
