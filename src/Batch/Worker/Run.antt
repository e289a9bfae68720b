-- ===== src/Batch/Worker/Run.antt =====
-- The worker over a sequence of events, in any order that the `select!` of its loop can take.
use obs.Prelude.{ℕ, Bool, List, [], ◌∷◌}
use obs.Wire.Message.{Message}
use obs.Batch.Spool.{File}
use obs.Batch.Worker.State.{BatchBackend, BatchConfig, World, Worker}
use obs.Batch.Worker.Admit.{admit, flush_aged, drain_on_shutdown}
use obs.Batch.Worker.Reship.{on_tick}

pub data Event (E K Body : Type 0) : Type 0 where
  arrives : World K Body → E → Event E K Body
  ages : World K Body → Event E K Body
  ticks : World K Body → Bool → Event E K Body

-- `BatchingSink::new`, over the files that an earlier process has left.
unfoldable pub start : {E K : Type 0} → ℕ → List File → Worker E K
start seed files = record {
  partitions = [];
  overflow_reported = [];
  counters = record {
    partition_evicted = 0;
    uploads = 0;
    retries = 0;
    spooled = 0;
    recovered = 0;
    escalated = 0;
    envelope_too_large = 0;
  };
  files = files;
  failed_files = [];
  events = [];
  rng_state = seed;
  left = [];
}

module _ {E K Body : Type 0} (m : Message E) (b : BatchBackend E K Body)
    (config : BatchConfig) where
  unfoldable pub handle : Event E K Body → Worker E K → Worker E K
  unfolding admit flush_aged on_tick
  handle (arrives world env) w = admit m b config world env w
  handle (ages world) w = flush_aged m b config world w
  handle (ticks world is_first) w = on_tick m b config world is_first w

  unfoldable pub run : List (Event E K Body) → Worker E K → Worker E K
  unfolding handle
  run [] w = w
  run (event ∷ events) w = run events (handle event w)

  -- The whole life of a worker: its events, and the drain that ends its loop.
  unfoldable pub live : List (Event E K Body) → World K Body → Worker E K → Worker E K
  unfolding run drain_on_shutdown
  live events at_end w = drain_on_shutdown m b config at_end (run events w)
