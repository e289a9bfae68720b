-- ===== src/Emit/Observer/Tests.antt =====
-- The emission of an AUDIT event at a concrete input.
use obs.Prelude.{◌≡◌, refl, true, false, none, some, [], ◌∷◌, Bytes, length}
use mathlib.Core.Path.{subst}
use obs.Wire.Message.{Message}
use obs.Audit.Append.{Writer, Io, open_with_fsync, per_batch}
use obs.Audit.Append.Policy.{IsValid, open_with_fsync-IsValid}
use obs.Emit.Severity.{info, trace}
use obs.Emit.Envelope.{SamplingReason}
use obs.Emit.Sampling.{dyadic}
use obs.Emit.Scope.{Stacks}
use obs.Emit.Pipeline.{run_emit_pipeline}
use obs.Emit.Worker.{TierWorker, audit}
use obs.Emit.Dispatch.{Observer, warn_only}
use obs.Emit.Observer.{Event, Settings, fill_identity, emit_envelope}
use obs.Emit.Observer.Whole.{Emitted, emit_envelope-Emitted}

-- A codec that writes the payload.
abbrev message : Message Event
message = record {
  compute_size = λ e. length e.envelope.payload;
  write_to = λ e. e.envelope.payload;
  decode_from_slice = λ bs. none;
}

abbrev event : Event
event = record {
  envelope = record {
    full_name = b'a' ∷ [];
    severity = info;
    trace_id = [];
    span_id = [];
    parent_span_id = [];
    labels = [];
    payload = 8 ∷ 1 ∷ [];
    sampling_reason = SamplingReason.audit;
  };
  tier = some audit;
  service = [];
  instance_id = [];
  version = [];
}

abbrev settings : Settings
settings = record {
  config = record {
    max_payload_bytes = 100;
    max_label_value_bytes = 10;
    sampling = record {
      default_rate = dyadic 1 1;
      per_event = [];
      always_log_at_or_above = info;
      honour_traceparent_sampled = true;
    };
  };
  filter = record { default_level = trace; default_off = false; statics = []; dynamics = [] };
  service = b's' ∷ [];
  instance_id = b'i' ∷ [];
  version = b'1' ∷ [];
}

abbrev scopes : Stacks
scopes = record { task = none; thread = [] }

abbrev full_worker : TierWorker Event Bytes
full_worker = record {
  has_sender = true;
  capacity = 1;
  queue = event ∷ [];
  delivered = 0;
  out = [];
}

abbrev observer : Observer Event Bytes
observer = record {
  router = record {
    log_sink = none;
    metric_sink = none;
    trace_sink = none;
    audit_sink = some [];
    fallback = none;
  };
  workers = record {
    log_worker = none;
    metric_worker = none;
    trace_worker = none;
    audit_worker = some full_worker;
  };
  spool = some (open_with_fsync 1000 per_batch);
  counters = record {
    channel_full_log = 0;
    channel_full_metric = 0;
    channel_full_trace = 0;
    channel_full_audit = 0;
  };
  on_failure = warn_only;
  events = [];
}

abbrev all_well : Io
all_well = record {
  write_len = none;
  write_buf = none;
  flush_bin = true;
  write_crc = none;
  flush_crc = true;
  sync_bin = true;
  sync_crc = true;
}

fresh_spool : (w : Writer) → observer.spool ≡ some w → IsValid [] [] w
fresh_spool w e =
    let same : open_with_fsync 1000 per_batch ≡ w = cc in
    subst (IsValid [] []) same (open_with_fsync-IsValid 1000 per_batch)

abbrev filled : Event
filled = fill_identity settings event

emit_envelope-Emitted_example :
    let r =
      run_emit_pipeline settings.config settings.filter filled.envelope.severity 5 filled.envelope
        scopes 7 in
    Emitted message
      (record filled { envelope = r.envelope })
      scopes
      []
      []
      observer
      r
      (emit_envelope message
        (λ e. some e.envelope.payload)
        true
        (0 ∷ [])
        all_well
        5
        settings
        event
        scopes
        7
        observer)
emit_envelope-Emitted_example =
    emit_envelope-Emitted message (λ e. some e.envelope.payload) (0 ∷ []) all_well full_worker
      observer 5 settings event scopes 7 [] [] refl refl fresh_spool
