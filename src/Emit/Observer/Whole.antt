-- ===== src/Emit/Observer/Whole.antt =====
-- An AUDIT event from its emission to the channel or the spool.
use mathlib.Core.Path.{subst}
use obs.Prelude.{ℕ, ◌≡◌, refl, sym, ◌⊎◌, inl, inr, true, false, Option, some, List, [], Bytes}
use obs.Wire.Message.{Message}
use obs.Audit.Append.{Io, Writer}
use obs.Audit.Append.Policy.{IsValid}
use obs.Emit.Scope.{Stacks}
use obs.Emit.Pipeline.{Outcome, run_emit_pipeline}
use obs.Emit.Pipeline.Kept.{run_emit_pipeline_tidy}
use obs.Emit.Worker.{TierWorker, audit}
use obs.Emit.Dispatch.{running, Observer, worker_of, is_audit, dispatch_to, dispatch_async}
use obs.Emit.Dispatch.Audit.{AuditOutcome, dispatch_audit-outcome}
use obs.Emit.Observer.{
  Event, Settings, Emission, fill_identity, known_tier, hand_over, after_pipeline, emit_envelope,
}

-- What an emission comes to, by the outcome `r` of the pipeline: the pipeline drops the event and no
-- worker, no spool and no scope has changed, or it keeps the event and its dispatch ends in one of
-- three ways. The scopes, the generator and the reports are those that the pipeline leaves.
pub data Emitted {D : Type 0} (m : Message Event) (e : Event) (stacks : Stacks)
    (safe recent : List Bytes) (o : Observer Event D) (r : Outcome) (x : Emission D) : Type 0 where
  dropped :
      r.kept ≡ false
      → x.process ≡ running
      → x.dispatch ≡ o
      → x.stacks ≡ stacks
      → (x.rng ≡ r.rng) × (x.reports ≡ r.reports)
      → Emitted m e stacks safe recent o r x
  kept :
      r.kept ≡ true
      → x.reports ≡ []
      → AuditOutcome m e safe recent o (x.process, x.dispatch)
      → (x.stacks ≡ r.stacks) × (x.rng ≡ r.rng)
      → Emitted m e stacks safe recent o r x

module _ {D : Type 0} (m : Message Event) (scrub : Event → Option D) (rounds : List ℕ) (io : Io)
    (worker : TierWorker Event D) (o : Observer Event D) where
  dispatch_async-outcome :
      (e : Event) (safe recent : List Bytes)
      → o.workers.audit_worker ≡ some worker
      → ((w : Writer) → o.spool ≡ some w → IsValid safe recent w)
      → AuditOutcome m e safe recent o (dispatch_async m scrub rounds io e audit o)
  unfolding dispatch_async dispatch_to worker_of is_audit
  dispatch_async-outcome e safe recent there v =
      subst (λ w. AuditOutcome m e safe recent o (dispatch_to m scrub rounds io e audit w o))
        (sym there) (dispatch_audit-outcome m scrub rounds io e worker o safe recent v)

  after_pipeline-Emitted :
      (e : Event) (stacks : Stacks) (r : Outcome) (safe recent : List Bytes)
      → ((r.kept ≡ true) × (r.reports ≡ [])) ⊎ ((r.kept ≡ false) × (r.stacks ≡ stacks))
      → o.workers.audit_worker ≡ some worker
      → ((w : Writer) → o.spool ≡ some w → IsValid safe recent w)
      → Emitted m
          (record e { envelope = r.envelope })
          stacks
          safe
          recent
          o
          r
          (after_pipeline m scrub true rounds io audit e r o)
  unfolding after_pipeline hand_over
  after_pipeline-Emitted e stacks r safe recent (inl (keeps, quiet)) there v = simp keeps (
      kept keeps quiet
        (dispatch_async-outcome (record e { envelope = r.envelope }) safe recent there v)
        (refl, refl))
  after_pipeline-Emitted e stacks r safe recent (inr (drops, still)) there v =
      simp drops (dropped drops refl refl still (refl, refl))

  -- For an AUDIT event that is emitted in a runtime, with a worker for its tier and a spool, if any,
  -- with a valid writer: if the pipeline drops it, no worker, spool or scope has changed and its reports
  -- are those of the pipeline; if the pipeline keeps it, it ends, with its identity and its labels filled
  -- in, in the channel of its worker, in the spool, or with a report of its loss.
  pub emit_envelope-Emitted :
      (nanos : ℕ) (s : Settings) (e : Event) (stacks : Stacks) (rng : ℕ) (safe recent : List Bytes)
      → e.tier ≡ some audit
      → o.workers.audit_worker ≡ some worker
      → ((w : Writer) → o.spool ≡ some w → IsValid safe recent w)
      → let e' = fill_identity s e in
        let r =
          run_emit_pipeline s.config s.filter e'.envelope.severity nanos e'.envelope stacks rng in
        Emitted m
          (record e' { envelope = r.envelope })
          stacks
          safe
          recent
          o
          r
          (emit_envelope m scrub true rounds io nanos s e stacks rng o)
  unfolding emit_envelope known_tier fill_identity
  emit_envelope-Emitted nanos s e stacks rng safe recent is_audit_event there v =
      let e' = fill_identity s e in
      let r =
        run_emit_pipeline s.config s.filter e'.envelope.severity nanos e'.envelope stacks rng in
      let tidy =
        run_emit_pipeline_tidy s.config s.filter e'.envelope.severity nanos e'.envelope stacks
          rng in
      subst
        (λ t.
          Emitted m (record e' { envelope = r.envelope }) stacks safe recent o r
            (after_pipeline m scrub true rounds io (known_tier t) e' r o))
        (sym is_audit_event) (after_pipeline-Emitted e' stacks r safe recent tidy there v)
