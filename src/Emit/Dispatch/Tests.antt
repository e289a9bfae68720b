-- ===== src/Emit/Dispatch/Tests.antt =====
-- Runs of the dispatch, and the theorems on it at concrete inputs. An envelope is a flag.
use obs.Prelude.{
  ◌⊎◌, ℕ, ◌+◌, ◌≤◌, ◌≡◌, refl, Bool, true, false, Option, none, some, List, [], ◌∷◌, ◌++◌, map,
  length, arith,
}
use obs.Prelude.Bounded.{filled}
use obs.Wire.Flag.{flag, flag_bytes, flag-IsCodec}
use obs.Audit.Append.{per_batch, Writer, Io, open_with_fsync}
use obs.Audit.Append.Policy.{bins, crcs, Holds, IsValid, open_with_fsync-IsValid}
use obs.Emit.Worker.{
  TierWorker, spawn, audit, shutdown, ended, spawn_task, send_to, try_send, is_ended, set_flag,
  take_sender, task_step, step_at, receive, receive_from, deliver_one, is_empty, next_phase,
  wait_or_drain,
}
use obs.Emit.Worker.Ends.{is_past, turns-spawn_delivers}
use obs.Emit.Worker.Order.{Turn, send, step_task, raise_flag, drop_sender, sent, turns, scrubbed}
use obs.Emit.Dispatch.{
  Observer, warn_only, with_worker, dispatch_audit, report_recovered, recover_audit_spool,
}
use obs.Emit.Dispatch.Audit.{AuditOutcome, dispatch_audit-outcome}
use obs.Emit.Dispatch.Recovery.{recover_audit_spool_loses}

-- The scrubber refuses flags that are not set.
scrub : Bool → Option ℕ
scrub true = some 1
scrub false = none

abbrev some_turns : List (Turn Bool)
some_turns = send true ∷ send false ∷ send true ∷ step_task ∷ []

turns-spawn_delivers_example :
    let (accepted, t) = turns scrub some_turns ([], spawn_task 2) in
    (t.worker.out ++ scrubbed scrub t.worker.queue ≡ scrubbed scrub accepted)
    × (length t.worker.queue ≤ t.worker.capacity)
    × ((is_past t.phase ≡ true)
        ⊎ (((shutdown scrub t).phase ≡ ended)
            × ((shutdown scrub t).worker.out ≡ scrubbed scrub accepted)))
turns-spawn_delivers_example = turns-spawn_delivers scrub 2 some_turns

-- An envelope that is accepted between the drain and the drop of the sender stays in the channel.
abbrev raced : List (Turn Bool)
raced =
    raise_flag
    ∷ send true
    ∷ step_task
    ∷ step_task
    ∷ send true
    ∷ drop_sender
    ∷ step_task
    ∷ step_task
    ∷ []

raced_loses : (turns scrub raced ([], spawn_task 2)).1.worker.queue ≡ true ∷ []
unfolding turns sent send_to try_send is_ended spawn_task spawn set_flag take_sender task_step
    step_at receive receive_from deliver_one scrub is_empty next_phase wait_or_drain
raced_loses = refl

-- A worker with a channel that is full, and a spool that is fresh.
abbrev full_worker : TierWorker Bool ℕ
full_worker = record { has_sender = true; capacity = 1; queue = true ∷ []; delivered = 0; out = [] }

abbrev observer : Observer Bool ℕ
observer = record {
  router = record {
    log_sink = none;
    metric_sink = none;
    trace_sink = none;
    audit_sink = some [];
    fallback = none;
  };
  workers = record {
    log_worker = none;
    metric_worker = none;
    trace_worker = none;
    audit_worker = some full_worker;
  };
  spool = some (open_with_fsync 1000 per_batch);
  counters = record {
    channel_full_log = 0;
    channel_full_metric = 0;
    channel_full_trace = 0;
    channel_full_audit = 0;
  };
  on_failure = warn_only;
  events = [];
}

abbrev all_well : Io
all_well = record {
  write_len = none;
  write_buf = none;
  flush_bin = true;
  write_crc = none;
  flush_crc = true;
  sync_bin = true;
  sync_crc = true;
}

fresh_spool : (w : Writer) → observer.spool ≡ some w → IsValid [] [] w
fresh_spool w e =
    let same : open_with_fsync 1000 per_batch ≡ w = cc in
    rw (← same) (open_with_fsync-IsValid 1000 per_batch)

dispatch_audit-outcome_example :
    AuditOutcome flag true [] [] observer
      (dispatch_audit flag scrub (0 ∷ 0 ∷ []) all_well true full_worker observer)
dispatch_audit-outcome_example =
    dispatch_audit-outcome flag scrub (0 ∷ 0 ∷ []) all_well true full_worker observer [] []
      fresh_spool

-- A spool of two envelopes, and a worker with room for one.
abbrev two_spooled : Writer
two_spooled = record {
  bin = record {
    content = bins (flag_bytes true ∷ flag_bytes true ∷ []);
    durable = bins (flag_bytes true ∷ []);
  };
  bin_open = true;
  crc = record {
    content = crcs (flag_bytes true ∷ flag_bytes true ∷ []);
    durable = crcs (flag_bytes true ∷ []);
  };
  crc_open = true;
  bytes_written = 12;
  max_bytes = 1000;
  pending_records = 1;
  fsync_mode = per_batch;
}

two_spooled-Holds : Holds (map flag_bytes (true ∷ [])) (map flag_bytes (true ∷ [])) two_spooled
two_spooled-Holds = record {
  bin_content = refl;
  crc_content = refl;
  bin_durable = refl;
  crc_durable = refl;
  pending = refl;
}

abbrev empty_worker : TierWorker Bool ℕ
empty_worker = record { has_sender = true; capacity = 1; queue = []; delivered = 0; out = [] }

recover_audit_spool_loses_example :
    recover_audit_spool flag scrub
      (λ n. true)
      (record {
        bin = two_spooled.bin.content;
        crc = some two_spooled.crc.content;
        bin_goes = true;
        crc_goes = true;
      }
        ∷ [])
      (with_worker audit empty_worker observer)
    ≡ some (
      report_recovered flag scrub
          (λ n. true)
          (
            0 + 2,
            with_worker audit
                (record empty_worker { queue = filled 1 [] (true ∷ true ∷ []) })
                observer,
          ),
      [],
    )
recover_audit_spool_loses_example =
    recover_audit_spool_loses flag scrub flag-IsCodec (λ n. true) (true ∷ []) (true ∷ [])
      two_spooled true empty_worker observer two_spooled-Holds refl (omega arith)
