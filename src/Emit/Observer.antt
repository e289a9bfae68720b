-- ===== src/Emit/Observer.antt =====
-- `emit_envelope` of crates/obs-core/src/observer/standard.rs: the pipeline, and the dispatch of what
-- it keeps.
pub mod Whole
mod Tests
use obs.Prelude.{ℕ, Bool, true, false, Option, none, some, List, [], ◌∷◌, Text, if◌then◌else◌}
use obs.Wire.Message.{Message}
use obs.Audit.Append.{Io}
use obs.Emit.Envelope.{Envelope}
use obs.Emit.Filter.{Filter}
use obs.Emit.Scope.{Stacks}
use obs.Emit.Pipeline.{Config, SelfEvent, Outcome, run_emit_pipeline}
use obs.Emit.Worker.{Tier, unspecified}
use obs.Emit.Dispatch.{Process, running, Observer, dispatch_sync, dispatch_async}

-- The fields of an envelope that the observer itself reads or fills; `none` is a tier that the
-- schema does not know.
pub record Event : Type 0 where
  pub envelope : Envelope
  pub tier : Option Tier
  pub service : Text
  pub instance_id : Text
  pub version : Text

-- What `StandardObserver` holds for the pipeline.
pub record Settings : Type 0 where
  pub config : Config
  pub filter : Filter
  pub service : Text
  pub instance_id : Text
  pub version : Text

-- What a call leaves behind: the process, the workers and sinks, and of the thread its scopes, its
-- generator and the reports of the pipeline.
pub record Emission (D : Type 0) : Type 0 where
  pub process : Process
  pub dispatch : Observer Event D
  pub stacks : Stacks
  pub rng : ℕ
  pub reports : List SelfEvent

unfoldable pub or_own : Text → Text → Text
or_own [] own = own
or_own (c ∷ cs) own = c ∷ cs

unfoldable pub fill_identity : Settings → Event → Event
unfolding or_own
fill_identity s e = record e {
  service = or_own e.service s.service;
  instance_id = or_own e.instance_id s.instance_id;
  version = or_own e.version s.version;
}

unfoldable pub known_tier : Option Tier → Tier
known_tier none = unspecified
known_tier (some tier) = tier

module _ {D : Type 0} (m : Message Event) (scrub : Event → Option D) where
  unfoldable pub hand_over :
      Bool → List ℕ → Io → Tier → Event → Observer Event D → Process × Observer Event D
  unfolding dispatch_async dispatch_sync
  hand_over true rounds io tier e o = dispatch_async m scrub rounds io e tier o
  hand_over false rounds io tier e o = (running, dispatch_sync m scrub e tier o)

  unfoldable pub after_pipeline :
      Bool → List ℕ → Io → Tier → Event → Outcome → Observer Event D → Emission D
  unfolding hand_over
  after_pipeline in_runtime rounds io tier e r o =
      let handed = hand_over in_runtime rounds io tier (record e { envelope = r.envelope }) o in
      let (process, dispatch) = if r.kept then handed else (running, o) in
      record {
        process = process;
        dispatch = dispatch;
        stacks = r.stacks;
        rng = r.rng;
        reports = r.reports;
      }

  -- `in_runtime` says whether the thread is in a runtime, `nanos` is the clock.
  unfoldable pub emit_envelope :
      Bool → List ℕ → Io → ℕ → Settings → Event → Stacks → ℕ → Observer Event D → Emission D
  unfolding fill_identity after_pipeline run_emit_pipeline known_tier
  emit_envelope in_runtime rounds io nanos s e stacks rng o =
      let e' = fill_identity s e in
      after_pipeline in_runtime rounds io (known_tier e'.tier) e'
        (run_emit_pipeline s.config s.filter e'.envelope.severity nanos e'.envelope stacks rng) o
