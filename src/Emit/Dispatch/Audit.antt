-- ===== src/Emit/Dispatch/Audit.antt =====
-- What becomes of an envelope of the AUDIT tier.
use obs.Prelude.{
  ℕ, ◌≡◌, refl, ap, ◌⊎◌, inl, inr, Option, none, some, List, [], ◌∷◌, ◌++◌, Bytes, Result, ok, err,
  Result-cases, arith,
}
use obs.Wire.Message.{Message}
use obs.Audit.Append.{AppendError, Writer, Io, append}
use obs.Audit.Append.Policy.{IsValid, append-IsValid}
use obs.Emit.Worker.{TierWorker, try_send, receive_many, audit, note_channel_full}
use obs.Emit.Dispatch.{
  Process, running, audit_spooled, audit_spool_failed, Observer, with_worker, wait_send, audit_send,
  fail, after_append, spool_envelope, dispatch_audit, handle_spool_failure,
}

-- The envelope is the last in the channel of the AUDIT worker, and nothing else has happened.
pub record IsQueued {E D : Type 0} (env : E) (o o' : Observer E D) : Type 0 where
  worker : TierWorker E D
  front : List E
  is_worker : o'.workers.audit_worker ≡ some worker
  is_last : worker.queue ≡ front ++ (env ∷ [])
  nothing_lost : o'.counters ≡ o.counters
  same_spool : o'.spool ≡ o.spool

-- The record of the envelope is the last of the spool, which is as sound as before, and it is counted
-- and reported.
pub record IsSpooled {E D : Type 0} (m : Message E) (env : E) (safe recent : List Bytes)
    (o o' : Observer E D) : Type 0 where
  writer : Writer
  is_writer : o'.spool ≡ some writer
  holds :
      IsValid safe (recent ++ (m.write_to env ∷ [])) writer
      ⊎ IsValid (safe ++ (recent ++ (m.write_to env ∷ []))) [] writer
  counted : o'.counters ≡ note_channel_full audit o.counters
  reported : o'.events ≡ o.events ++ (audit_spooled env ∷ [])

-- The envelope is lost with a report, and the process goes on only as its configuration says.
pub record IsRefused {E D : Type 0} (env : E) (o : Observer E D) (r : Process × Observer E D)
    : Type 0 where
  why : Option AppendError
  reported : r.1.events ≡ o.events ++ (audit_spool_failed why ∷ [])
  as_configured : r.0 ≡ handle_spool_failure o.on_failure

pub data AuditOutcome {E D : Type 0} (m : Message E) (env : E) (safe recent : List Bytes)
    (o : Observer E D) (r : Process × Observer E D) : Type 0 where
  queued : r.0 ≡ running → IsQueued env o r.1 → AuditOutcome m env safe recent o r
  spooled : r.0 ≡ running → IsSpooled m env safe recent o r.1 → AuditOutcome m env safe recent o r
  refused : IsRefused env o r → AuditOutcome m env safe recent o r

module _ {E D : Type 0} (m : Message E) (scrub : E → Option D) where
  try_send-back : (env : E) (w : TierWorker E D) {back : E} → try_send env w ≡ err back → back ≡ env
  unfolding try_send
  try_send-back env w h = ground (arith, h)

  try_send-last :
      (env : E) (w : TierWorker E D) {w' : TierWorker E D}
      → try_send env w ≡ ok w'
      → w'.queue ≡ w.queue ++ (env ∷ [])
  unfolding try_send
  try_send-last env w h = ground (arith, h)

  -- Either the envelope is the last in a channel, or it comes back as it was.
  abbrev Sent : E → Result (E × TierWorker E D) (TierWorker E D) → Type 0
  Sent env (ok w') = (front : List E) × (w'.queue ≡ front ++ (env ∷ []))
  Sent env (err (back, w')) = back ≡ env

  wait_send-Sent :
      (rounds : List ℕ) (env : E) (w : TierWorker E D) → Sent env (wait_send m scrub rounds env w)
  unfolding wait_send
  wait_send-Sent [] env w = refl
  wait_send-Sent (taken ∷ rounds) env w =
      elim (Result-cases (try_send env (receive_many scrub taken w))) [
        | inl (w', e) ↦
            rw (wait_send, e)
              ((receive_many scrub taken w).queue, try_send-last env (receive_many scrub taken w) e)
        | inr (back, e) ↦
            rw (wait_send, e, try_send-back env (receive_many scrub taken w) e)
              (wait_send-Sent rounds env (receive_many scrub taken w))
      ]

  audit_send-Sent :
      (rounds : List ℕ) (env : E) (w : TierWorker E D) → Sent env (audit_send m scrub rounds env w)
  unfolding audit_send
  audit_send-Sent rounds env w = elim (Result-cases (try_send env w)) [
    | inl (w', e) ↦ rw (audit_send, e) (w.queue, try_send-last env w e)
    | inr (back, e) ↦ rw (audit_send, e, try_send-back env w e) (wait_send-Sent rounds env w)
  ]

  after_append-outcome :
      (env : E) (safe recent : List Bytes) (io : Io) (w : Writer) (o o1 : Observer E D)
      → IsValid safe recent w
      → o1.counters ≡ o.counters
      → o1.events ≡ o.events
      → o1.on_failure ≡ o.on_failure
      → AuditOutcome m env safe recent o (after_append m scrub env (append m env io w) o1)
  unfolding after_append fail
  after_append-outcome env safe recent io w o o1 v counters events mode =
      go (append m env io w) refl
    where
      go :
          (r : Result AppendError (Unit {0}) × Writer)
          → append m env io w ≡ r
          → AuditOutcome m env safe recent o (after_append m scrub env r o1)
      go (ok done, w') e = spooled refl (record {
        writer = w';
        is_writer = refl;
        holds = append-IsValid m env io safe recent v e;
        counted = ap (note_channel_full audit) counters;
        reported = ap (λ t. t ++ (audit_spooled env ∷ [])) events;
      })
      go (err x, w') e = refused (record {
        why = some x;
        reported = ap (λ t. t ++ (audit_spool_failed (some x) ∷ [])) events;
        as_configured = ap handle_spool_failure mode;
      })

  spool_envelope-outcome :
      (env : E) (safe recent : List Bytes) (io : Io) (spool : Option Writer) (o o1 : Observer E D)
      → ((w : Writer) → spool ≡ some w → IsValid safe recent w)
      → o1.counters ≡ o.counters
      → o1.events ≡ o.events
      → o1.on_failure ≡ o.on_failure
      → AuditOutcome m env safe recent o (spool_envelope m scrub env io spool o1)
  unfolding spool_envelope fail
  spool_envelope-outcome env safe recent io none o o1 v counters events mode = refused (record {
    why = none;
    reported = ap (λ t. t ++ (audit_spool_failed none ∷ [])) events;
    as_configured = ap handle_spool_failure mode;
  })
  spool_envelope-outcome env safe recent io (some w) o o1 v counters events mode =
      after_append-outcome env safe recent io w o o1 (v w refl) counters events mode

  -- An AUDIT envelope ends as the last one in the channel of its worker, or as the last record of a
  -- spool that is as sound as it was, counted and reported; or else its loss is reported, and the
  -- process panics, aborts or goes on as it is configured, however long the wait is and whatever the
  -- worker and the disk do meanwhile.
  pub dispatch_audit-outcome :
      (rounds : List ℕ) (io : Io) (env : E) (worker : TierWorker E D) (o : Observer E D)
      (safe recent : List Bytes)
      → ((w : Writer) → o.spool ≡ some w → IsValid safe recent w)
      → AuditOutcome m env safe recent o (dispatch_audit m scrub rounds io env worker o)
  unfolding dispatch_audit with_worker
  dispatch_audit-outcome rounds io env worker o safe recent v =
      elim (Result-cases (audit_send m scrub rounds env worker)) [
        | inl (w', e) ↦
            let sent : Sent env (ok w') = rw e at (audit_send-Sent rounds env worker) in
            rw (dispatch_audit, e)
              (queued refl (record {
                worker = w';
                front = sent.0;
                is_worker = refl;
                is_last = sent.1;
                nothing_lost = refl;
                same_spool = refl;
              }))
        | inr ((back, w'), e) ↦
            let same : back ≡ env = rw e at (audit_send-Sent rounds env worker) in
            rw (dispatch_audit, e, same)
              (spool_envelope-outcome env safe recent io o.spool o (with_worker audit w' o) v refl
                refl refl)
      ]
