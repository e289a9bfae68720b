-- ===== src/Emit/Dispatch.antt =====
-- crates/obs-core/src/observer/standard.rs behind its pipeline: the dispatch of an envelope to the
-- worker of its tier, the AUDIT path with its spool, and the recovery of a spool at the start.
pub mod Audit
pub mod Recovery
mod Tests
use obs.Prelude.{
  ℕ, zero, suc, ◌+◌, Bool, true, false, Option, none, some, List, [], ◌∷◌, ◌++◌, Bytes,
  if◌then◌else◌, ◌==◌, Result, ok, err,
}
use obs.Wire.Message.{Message}
use obs.Audit.Append.{AppendError, Writer, Io, append}
use obs.Audit.Recover.{RecoveryReport, recover_one}
use obs.Emit.Worker.{
  TierWorker, try_send, receive_many, Tier, unspecified, log, metric, trace, audit, WorkerCounters,
  note_channel_full,
}

-- A sink is the list of what it was given; the workers have their own view of it.
pub record SinkRouter (D : Type 0) : Type 0 where
  pub log_sink : Option (List D)
  pub metric_sink : Option (List D)
  pub trace_sink : Option (List D)
  pub audit_sink : Option (List D)
  pub fallback : Option (List D)

pub record WorkerPool (E D : Type 0) : Type 0 where
  pub log_worker : Option (TierWorker E D)
  pub metric_worker : Option (TierWorker E D)
  pub trace_worker : Option (TierWorker E D)
  pub audit_worker : Option (TierWorker E D)

pub data AuditFailureMode : Type 0 where
  panic_mode abort_mode warn_only : AuditFailureMode

-- Whether the process goes on.
pub data Process : Type 0 where
  running panicked aborted : Process

pub data SelfEvent (E : Type 0) : Type 0 where
  audit_spooled : E → SelfEvent E
  audit_spool_failed : Option AppendError → SelfEvent E

pub record Observer (E D : Type 0) : Type 0 where
  pub router : SinkRouter D
  pub workers : WorkerPool E D
  pub spool : Option Writer
  pub counters : WorkerCounters
  pub on_failure : AuditFailureMode
  pub events : List (SelfEvent E)

-- A pair of spool files, and whether the removal of each of them succeeds.
pub record SpoolFile : Type 0 where
  pub bin : Bytes
  pub crc : Option Bytes
  pub bin_goes : Bool
  pub crc_goes : Bool

-- What `remove_file` on both leaves for a later recovery, which looks for the `.audit.bin` file.
unfoldable pub removed : SpoolFile → List SpoolFile
removed f = if f.bin_goes then [] else record f { crc = if f.crc_goes then none else f.crc } ∷ []

-- `sink.deliver` on a sink that is there.
unfoldable pub deliver : {D : Type 0} → D → Option (List D) → Option (List D)
deliver d none = none
deliver d (some out) = some (out ++ (d ∷ []))

unfoldable pub primary : {D : Type 0} → Tier → SinkRouter D → Option (List D)
primary unspecified r = none
primary log r = r.log_sink
primary metric r = r.metric_sink
primary trace r = r.trace_sink
primary audit r = r.audit_sink

unfoldable pub with_primary : {D : Type 0} → Tier → Option (List D) → SinkRouter D → SinkRouter D
with_primary unspecified s r = r
with_primary log s r = record r { log_sink = s }
with_primary metric s r = record r { metric_sink = s }
with_primary trace s r = record r { trace_sink = s }
with_primary audit s r = record r { audit_sink = s }

-- `for_tier`, and the delivery to the sink that it finds.
unfoldable pub deliver_for_tier : {D : Type 0} → Tier → D → SinkRouter D → SinkRouter D
unfolding deliver primary with_primary
deliver_for_tier tier d r = elim (primary tier r) [
  | some out ↦ with_primary tier (deliver d (some out)) r
  | none ↦ record r { fallback = deliver d r.fallback }
]

unfoldable pub worker_of : {E D : Type 0} → Tier → WorkerPool E D → Option (TierWorker E D)
worker_of unspecified p = none
worker_of log p = p.log_worker
worker_of metric p = p.metric_worker
worker_of trace p = p.trace_worker
worker_of audit p = p.audit_worker

unfoldable pub with_worker : {E D : Type 0} → Tier → TierWorker E D → Observer E D → Observer E D
with_worker unspecified w o = o
with_worker log w o = record o { workers = record o.workers { log_worker = some w } }
with_worker metric w o = record o { workers = record o.workers { metric_worker = some w } }
with_worker trace w o = record o { workers = record o.workers { trace_worker = some w } }
with_worker audit w o = record o { workers = record o.workers { audit_worker = some w } }

unfoldable pub is_audit : Tier → Bool
is_audit audit = true
is_audit log = false
is_audit metric = false
is_audit trace = false
is_audit unspecified = false

unfoldable pub handle_spool_failure : AuditFailureMode → Process
handle_spool_failure panic_mode = panicked
handle_spool_failure abort_mode = aborted
handle_spool_failure warn_only = running

module _ {E D : Type 0} (m : Message E) (scrub : E → Option D) where
  unfoldable pub dispatch_sync : E → Tier → Observer E D → Observer E D
  unfolding deliver_for_tier
  dispatch_sync env tier o = elim (scrub env) [
    | none ↦ o
    | some d ↦ record o { router = deliver_for_tier tier d o.router }
  ]

  -- The rounds of the bounded wait, each with the envelopes that the worker has taken since the last
  -- try: an envelope that does not get in comes back with the worker as it then is.
  unfoldable pub wait_send :
      List ℕ → E → TierWorker E D → Result (E × TierWorker E D) (TierWorker E D)
  unfolding try_send receive_many
  wait_send [] env w = err (env, w)
  wait_send (taken ∷ rounds) env w = elim (try_send env (receive_many scrub taken w)) [
    | ok w' ↦ ok w'
    | err back ↦ wait_send rounds back (receive_many scrub taken w)
  ]

  unfoldable pub audit_send :
      List ℕ → E → TierWorker E D → Result (E × TierWorker E D) (TierWorker E D)
  unfolding wait_send
  audit_send rounds env w = elim (try_send env w) [
    | ok w' ↦ ok w'
    | err back ↦ wait_send rounds back w
  ]

  unfoldable pub fail : Option AppendError → Observer E D → Process × Observer E D
  unfolding handle_spool_failure
  fail why o = (
    handle_spool_failure o.on_failure,
    record o { events = o.events ++ (audit_spool_failed why ∷ []) },
  )

  unfoldable pub after_append :
      E → Result AppendError (Unit {0}) × Writer → Observer E D → Process × Observer E D
  unfolding fail note_channel_full
  after_append env (ok _, w) o = (
    running,
    record o {
      spool = some w;
      counters = note_channel_full audit o.counters;
      events = o.events ++ (audit_spooled env ∷ []);
    },
  )
  after_append env (err e, w) o = fail (some e) (record o { spool = some w })

  unfoldable pub spool_envelope : E → Io → Option Writer → Observer E D → Process × Observer E D
  unfolding after_append
  spool_envelope env io none o = fail none o
  spool_envelope env io (some w) o = after_append env (append m env io w) o

  unfoldable pub dispatch_audit :
      List ℕ → Io → E → TierWorker E D → Observer E D → Process × Observer E D
  unfolding audit_send spool_envelope with_worker
  dispatch_audit rounds io env worker o = elim (audit_send rounds env worker) [
    | ok w' ↦ (running, with_worker audit w' o)
    | err (back, w') ↦ spool_envelope back io o.spool (with_worker audit w' o)
  ]

  unfoldable pub dispatch_tier : E → Tier → TierWorker E D → Observer E D → Observer E D
  unfolding with_worker note_channel_full
  dispatch_tier env tier worker o = elim (try_send env worker) [
    | ok w' ↦ with_worker tier w' o
    | err dropped ↦ record o { counters = note_channel_full tier o.counters }
  ]

  -- `dispatch_async` behind its choice of the worker.
  unfoldable pub dispatch_to :
      List ℕ → Io → E → Tier → Option (TierWorker E D) → Observer E D → Process × Observer E D
  unfolding dispatch_sync is_audit dispatch_audit dispatch_tier
  dispatch_to rounds io env tier none o = (running, dispatch_sync env tier o)
  dispatch_to rounds io env tier (some worker) o =
      if is_audit tier
      then dispatch_audit rounds io env worker o
      else (running, dispatch_tier env tier worker o)

  unfoldable pub dispatch_async : List ℕ → Io → E → Tier → Observer E D → Process × Observer E D
  unfolding worker_of dispatch_to
  dispatch_async rounds io env tier o = dispatch_to rounds io env tier (worker_of tier o.workers) o

  -- `recover` over the files, oldest first. A pair is removed once it has been read to its end; the
  -- files that are left come with the result.
  unfoldable pub recover :
      {S X : Type 0}
      → (S → E → Result X S)
      → List SpoolFile
      → S
      → Option (List SpoolFile × Result X (S × List RecoveryReport))
  unfolding recover_one removed
  recover consume [] s = some ([], ok (s, []))
  recover consume (file ∷ files) s = elim (recover_one m consume file.bin file.crc s) [
    | none ↦ none
    | some r ↦ elim r [
      | err x ↦ some (file ∷ files, err x)
      | ok (s', report) ↦ elim (recover consume files s') [
        | none ↦ none
        | some (left, r') ↦ elim r' [
          | err x ↦ some (removed file ++ left, err x)
          | ok (s'', reports) ↦ some (removed file ++ left, ok (s'', report ∷ reports))
        ]
      ]
    ]
  ]

  unfoldable pub requeue : E → Option (TierWorker E D) → Observer E D → Observer E D
  unfolding dispatch_sync with_worker
  requeue env none o = dispatch_sync env audit o
  requeue env (some worker) o = elim (try_send env worker) [
    | ok w' ↦ with_worker audit w' o
    | err back ↦ o
  ]

  -- The closure of `recover_audit_spool`, over its count and the observer; it never fails.
  unfoldable pub consume_recovered : ℕ × Observer E D → E → Result (Unit {0}) (ℕ × Observer E D)
  unfolding requeue
  consume_recovered (total, o) env = ok (total + 1, requeue env o.workers.audit_worker o)

  -- What follows the recovery: the event with the count, given to the LOG tier at once.
  unfoldable pub report_recovered : (ℕ → E) → ℕ × Observer E D → Observer E D
  unfolding dispatch_sync
  report_recovered recovered_event (total, o) =
      if total == 0 then o else dispatch_sync (recovered_event total) log o

  -- The observer, and the files that are left.
  unfoldable pub recover_audit_spool :
      (ℕ → E) → List SpoolFile → Observer E D → Option (Observer E D × List SpoolFile)
  unfolding recover consume_recovered report_recovered
  recover_audit_spool recovered_event files o = elim (recover consume_recovered files (0, o)) [
    | none ↦ none
    | some (left, r) ↦ elim r [
      | err x ↦ none
      | ok (s, reports) ↦ some (report_recovered recovered_event s, left)
    ]
  ]
