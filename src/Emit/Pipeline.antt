-- ===== src/Emit/Pipeline.antt =====
-- `run_emit_pipeline` of crates/obs-core/src/observer/standard.rs.
pub mod Kept
pub mod Decided
use obs.Prelude.{
  ℕ, ◌+◌, Bool, true, false, ◌&&◌, ◌||◌, Option, none, some, List, [], ◌∷◌, Text, ltb,
  if◌then◌else◌, length,
}
use obs.Emit.Severity.{Severity, at_least}
use obs.Emit.Severity as Sev
use obs.Emit.Envelope.{Envelope, SamplingReason, forensic, audit, override, Labels}
use obs.Emit.Filter.{Filter, event_allowed}
use obs.Emit.Sampling.{SamplingConfig, SamplingDecision, drop_it, keep_it, parent_set, decide}
use obs.Emit.Scope.{
  Stacks, auto_fill_envelope, inbound_traceparent_sampled, push_tail_buffer,
  mark_error_on_active_scopes,
}

-- `LimitsConfig` and `SamplingConfig` of the observer's configuration.
pub record Config : Type 0 where
  pub max_payload_bytes : ℕ
  pub max_label_value_bytes : ℕ
  pub sampling : SamplingConfig

-- The events that the pipeline reports about the events that it drops.
pub data SelfEvent : Type 0 where
  oversized_dropped : Text → ℕ → SelfEvent
  oversized_label_dropped : Text → Text → ℕ → SelfEvent

-- What a call leaves behind: whether the envelope goes on, the envelope, the scopes, the state of the
-- thread's generator and the reports.
pub record Outcome : Type 0 where
  pub kept : Bool
  pub envelope : Envelope
  pub stacks : Stacks
  pub rng : ℕ
  pub reports : List SelfEvent

unfoldable pub dropped : Envelope → Stacks → ℕ → List SelfEvent → Outcome
dropped env s x reports = record {
  kept = false;
  envelope = env;
  stacks = s;
  rng = x;
  reports = reports;
}

unfoldable pub kept_as : Envelope → Stacks → ℕ → Outcome
kept_as env s x = record { kept = true; envelope = env; stacks = s; rng = x; reports = [] }

unfoldable pub is_oversized : Config → Envelope → Bool
is_oversized cfg env = ltb 0 cfg.max_payload_bytes && ltb cfg.max_payload_bytes (length env.payload)

-- The first label whose value is too long.
unfoldable pub long_label : ℕ → Labels → Option (Text × ℕ)
long_label max_label_bytes [] = none
long_label max_label_bytes ((k, v) ∷ labels) =
    let rest = long_label max_label_bytes labels in
    if ltb max_label_bytes (length v) then some (k, length v) else rest

unfoldable pub bad_label : Config → Envelope → Option (Text × ℕ)
unfolding long_label
bad_label cfg env =
    if ltb 0 cfg.max_label_value_bytes
    then long_label cfg.max_label_value_bytes env.labels
    else none

unfoldable pub bypass_sampler : SamplingReason → Bool
bypass_sampler SamplingReason.unspecified = false
bypass_sampler SamplingReason.head_rate = false
bypass_sampler SamplingReason.tail_error = false
bypass_sampler SamplingReason.slow = false
bypass_sampler forensic = true
bypass_sampler audit = true
bypass_sampler SamplingReason.runtime = false
bypass_sampler override = true
bypass_sampler (SamplingReason.unknown n) = false

-- `Trace | Debug`
unfoldable pub is_buffered : Severity → Bool
is_buffered Sev.unspecified = false
is_buffered Sev.trace = true
is_buffered Sev.debug = true
is_buffered Sev.info = false
is_buffered Sev.warn = false
is_buffered Sev.error = false
is_buffered Sev.fatal = false

-- Step 5, the tail-on-error push.
unfoldable pub tail_step : Severity → Envelope → Stacks → Stacks
unfolding is_buffered push_tail_buffer mark_error_on_active_scopes
tail_step sev env s =
    if is_buffered sev
    then push_tail_buffer env s
    else if at_least sev Sev.error
    then mark_error_on_active_scopes s
    else s

-- What follows the sampler's decision.
unfoldable pub after_sampler : SamplingDecision → Severity → Envelope → Stacks → ℕ → Outcome
unfolding tail_step dropped kept_as
after_sampler drop_it sev env s x = dropped env s x []
after_sampler keep_it sev env s x = kept_as env (tail_step sev env s) x
after_sampler (parent_set true) sev env s x =
    let marked = record env { sampling_reason = override } in
    kept_as marked (tail_step sev marked s) x
after_sampler (parent_set false) sev env s x = dropped env s x []

-- Step 4, the head sampler.
unfoldable pub sample_step : Config → Severity → ℕ → Envelope → Stacks → ℕ → Outcome
unfolding after_sampler bypass_sampler decide
sample_step cfg sev nanos env s x =
    if bypass_sampler env.sampling_reason
    then kept_as env s x
    else (let (decision, x') =
          decide cfg.sampling env.full_name sev (inbound_traceparent_sampled s) nanos x in
        after_sampler decision sev env s x')

-- Step 3a, the filter.
unfoldable pub filter_step : Config → Filter → Severity → ℕ → Envelope → Stacks → ℕ → Outcome
unfolding sample_step
filter_step cfg f sev nanos env s x =
    if event_allowed f env sev then sample_step cfg sev nanos env s x else dropped env s x []

-- Steps 3.0 and 3.1, the limits.
unfoldable pub limit_step : Config → Filter → Severity → ℕ → Envelope → Stacks → ℕ → Outcome
unfolding filter_step is_oversized bad_label
limit_step cfg f sev nanos env s x =
    if is_oversized cfg env
    then dropped env s x (oversized_dropped env.full_name (length env.payload) ∷ [])
    else elim (bad_label cfg env) [
      | some (key, size) ↦ dropped env s x (oversized_label_dropped env.full_name key size ∷ [])
      | none ↦ filter_step cfg f sev nanos env s x
    ]

-- `nanos` is the clock, `x` the state of the thread's generator.
unfoldable pub run_emit_pipeline : Config → Filter → Severity → ℕ → Envelope → Stacks → ℕ → Outcome
unfolding limit_step auto_fill_envelope
run_emit_pipeline cfg f sev nanos env s x =
    limit_step cfg f sev nanos (auto_fill_envelope s env) s x
