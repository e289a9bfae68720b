-- ===== src/Emit/Dispatch/Recovery.antt =====
-- What the recovery of a spool does with more envelopes than the AUDIT channel has room for.
use obs.Prelude.{
  ℕ, Bool, ◌+◌, ◌≤◌, ◌≡◌, refl, sym, ap, ◌∙◌, inl, inr, true, Bool-cases, Option, some, List, [],
  ◌∷◌, ◌++◌, map, length, length-append, ltb, ltb→lt, ltb→le, Result, ok, err, arith,
}
use obs.Prelude.Bounded.{filled, filled-nil, filled-full, filled-room}
use obs.Wire.Message.{Message, IsCodec}
use obs.Audit.Append.{Writer}
use obs.Audit.Append.Policy.{Holds}
use obs.Audit.Recover.{RecoveryReport}
use obs.Audit.Recover.Crash.{consume_all}
use obs.Audit.Recover.Survive.{no_records, recover_one-append}
use obs.Emit.Worker.{TierWorker, try_send, audit}
use obs.Emit.Dispatch.{
  Observer, with_worker, recover, removed, requeue, consume_recovered, report_recovered,
  recover_audit_spool,
}

module _ {E D : Type 0} (m : Message E) (scrub : E → Option D) where
  landed :
      (o : Observer E D) (r : RecoveryReport) {t t' : ℕ} {w w' : TierWorker E D} {k k' : ℕ}
      → t ≡ t'
      → w ≡ w'
      → k ≡ k'
      → ◌≡◌ {A = Result (Unit {0}) ((ℕ × Observer E D) × RecoveryReport)}
          (ok ((t, with_worker audit w o), record r { records = k }))
          (ok ((t', with_worker audit w' o), record r { records = k' }))
  landed o r a b c = λ i. ok ((a i, with_worker audit (b i) o), record r { records = c i })

  consume_taken :
      (env : E) (total : ℕ) (w : TierWorker E D) (o : Observer E D) {w' : TierWorker E D}
      → try_send env w ≡ ok w'
      → consume_recovered m scrub (total, with_worker audit w o) env
        ≡ ok (total + 1, with_worker audit w' o)
  unfolding consume_recovered requeue with_worker
  consume_taken env total w o e = rw (requeue, e) refl

  consume_dropped :
      (env : E) (total : ℕ) (w : TierWorker E D) (o : Observer E D) {back : E}
      → try_send env w ≡ err back
      → consume_recovered m scrub (total, with_worker audit w o) env
        ≡ ok (total + 1, with_worker audit w o)
  unfolding consume_recovered requeue with_worker
  consume_dropped env total w o e = rw (requeue, e) refl

  requeue_all :
      (envs : List E) (total : ℕ) (w : TierWorker E D) (o : Observer E D) (r : RecoveryReport)
      → w.has_sender ≡ true
      → length w.queue ≤ w.capacity
      → consume_all m (consume_recovered m scrub) envs (total, with_worker audit w o) r
        ≡ ok (
          (
            total + length envs,
            with_worker audit (record w { queue = filled w.capacity w.queue envs }) o,
          ),
          record r { records = r.records + length envs },
        )
  unfolding consume_all
  requeue_all [] total w o r sender fits =
      landed o r (omega arith)
        (ap (λ q. record w { queue = q }) (sym (filled-nil w.capacity w.queue))) (omega arith)
  requeue_all (env ∷ envs) total w o r sender fits =
      elim (Bool-cases (ltb (length w.queue) w.capacity)) [
        | inl e ↦
            let room = ltb→lt _ _ e in
            let w' = record w { queue = w.queue ++ (env ∷ []) } in
            let taken : try_send env w ≡ ok w' = unfold try_send in rw (sender, e) refl in
            rw (consume_all, consume_taken env total w o taken)
              (requeue_all envs (total + 1) w' o (record r { records = r.records + 1 }) sender
                  (omega (arith, room, length-append {0} w.queue (env ∷ [])))
                ∙ landed o r (omega arith)
                    (ap (λ q. record w { queue = q })
                      (filled-room w.capacity w.queue env envs room))
                    (omega arith))
        | inr e ↦
            let full = ltb→le _ _ e in
            let back : try_send env w ≡ err env = unfold try_send in rw (sender, e) refl in
            rw (consume_all, consume_dropped env total w o back)
              (requeue_all envs (total + 1) w o (record r { records = r.records + 1 }) sender fits
                ∙ landed o r (omega arith)
                    (ap (λ q. record w { queue = q })
                      (filled-full w.capacity w.queue envs full
                        ∙ sym (filled-full w.capacity w.queue (env ∷ envs) full)))
                    (omega arith))
      ]

  -- An AUDIT channel that the worker does not empty meanwhile takes no more of the envelopes of a
  -- valid spool file than it has room for. All envelopes are counted as recovered, and no file is left
  -- if its removal succeeds, so the others are neither in the channel nor on disk.
  pub recover_audit_spool_loses :
      (codec : IsCodec m) (recovered_event : ℕ → E) (safe recent : List E) (writer : Writer)
      (crc_goes : Bool) (w : TierWorker E D) (o : Observer E D)
      → Holds (map m.write_to safe) (map m.write_to recent) writer
      → w.has_sender ≡ true
      → length w.queue ≤ w.capacity
      → recover_audit_spool m scrub recovered_event
          (record {
            bin = writer.bin.content;
            crc = some writer.crc.content;
            bin_goes = true;
            crc_goes = crc_goes;
          }
            ∷ [])
          (with_worker audit w o)
        ≡ some (
          report_recovered m scrub recovered_event (
            0 + length (safe ++ recent),
            with_worker audit (record w { queue = filled w.capacity w.queue (safe ++ recent) }) o,
          ),
          [],
        )
  unfolding recover_audit_spool recover removed
  recover_audit_spool_loses codec recovered_event safe recent writer crc_goes w o holds sender
        fits =
      let read =
        recover_one-append m codec (consume_recovered m scrub) safe recent writer
          (0, with_worker audit w o) holds in
      rw
        (
          recover_audit_spool,
          recover,
          read,
          requeue_all (safe ++ recent) 0 w o no_records sender fits,
        )
        refl
