-- ===== src/Batch/Worker/Admit.antt =====
-- What the worker does at each event: an envelope that arrives, partitions that have aged, the end.
use obs.Prelude.{
  ℕ, ◌+◌, ◌-◌, ◌*◌, ◌%◌, ◌^◌, min, max, Bool, false, ◌||◌, Option, none, some, List, [], ◌∷◌, ◌++◌,
  Text, length, take, ltb, leb, ◌==◌, if◌then◌else◌, map,
}
use obs.Wire.Frame.{from_be_bytes}
use obs.Wire.Message.{Message}
use obs.Batch.Spool.{u32_max}
use obs.Batch.Worker.State.{
  BatchBackend, BatchConfig, World, Reason, SelfEvent, Fate, Partition, Worker, fetch_add, find,
  delete, partition_hex, described, label_of, emit, leave,
}
use obs.Batch.Worker.Flush.{spool_and_emit, flush_partition}

-- `HashSet::contains`
unfoldable pub contains : ℕ → List ℕ → Bool
contains n [] = false
contains n (x ∷ xs) = (x == n) || contains n xs

-- `saturating_mul(2).max(4)`; twice a u32 is no usize that overflows.
unfoldable pub ring_cap : BatchConfig → ℕ
ring_cap config = max (config.max_events * 2) 4

-- `max_events.saturating_mul(2)` on a u32.
unfoldable pub reported_cap : BatchConfig → ℕ
reported_cap config = min (config.max_events * 2) u32_max

unfoldable pub count_evicted : {E K : Type 0} → Worker E K → Worker E K
unfolding fetch_add
count_evicted w = record w {
  counters = record w.counters { partition_evicted = fetch_add w.counters.partition_evicted };
}

unfoldable pub push_back : {E K : Type 0} → Message E → E → Partition E K → Partition E K
push_back m env p = record p {
  envelopes = p.envelopes ++ (env ∷ []);
  bytes = min (p.bytes + m.compute_size env) (2 ^ 64 - 1);
}

unfoldable pub should_flush : {E K : Type 0} → BatchConfig → Partition E K → Bool
should_flush config p =
    leb config.max_events (length p.envelopes % 2 ^ 32) || leb config.max_bytes p.bytes

-- `now.duration_since(opened) >= max_age`
unfoldable pub aged : {E K : Type 0} → BatchConfig → ℕ → List (Partition E K) → List (Option K)
aged config now [] = []
aged config now (p ∷ ps) =
    let rest = aged config now ps in
    if leb config.max_age (now - p.opened) then p.key ∷ rest else rest

unfoldable pub key_of_partition : {E K : Type 0} → Partition E K → Option K
key_of_partition p = p.key

module _ {E K Body : Type 0} (m : Message E) (b : BatchBackend E K Body) (config : BatchConfig)
    (world : World K Body) where
  -- `entry(key).or_insert_with_key(…)`
  unfoldable pub entry : Option K → List (Partition E K) → Partition E K
  unfolding find partition_hex
  entry key partitions = elim (find b key partitions) [
    | some p ↦ p
    | none ↦ record {
      key = key;
      key_hex = partition_hex b key;
      envelopes = [];
      bytes = 0;
      opened = world.now;
    }
  ]

  unfoldable pub hash_partition_hex : Text → ℕ
  unfolding from_be_bytes
  hash_partition_hex hex = from_be_bytes (take 8 (b.blake3 hex))

  unfoldable pub report_overflow : Partition E K → Worker E K → Worker E K
  unfolding contains emit hash_partition_hex reported_cap
  report_overflow p w =
      if contains (hash_partition_hex p.key_hex) w.overflow_reported
      then w
      else emit
          (SelfEvent.partition_overflow p.key_hex w.counters.partition_evicted
            (reported_cap config))
          (record w { overflow_reported = hash_partition_hex p.key_hex ∷ w.overflow_reported })

  -- `pop_front` and what follows it, for the envelopes as they are.
  unfoldable pub pop_front : List E → Partition E K → Worker E K → Partition E K × Worker E K
  unfolding count_evicted leave report_overflow
  pop_front [] p w = (p, w)
  pop_front (old ∷ envs) p w = (
    record p { envelopes = envs; bytes = p.bytes - m.compute_size old },
    report_overflow p (count_evicted (leave Fate.is_evicted p.key (old ∷ []) w)),
  )

  unfoldable pub make_room : Partition E K → Worker E K → Partition E K × Worker E K
  unfolding pop_front ring_cap
  make_room p w =
      if leb (ring_cap config) (length p.envelopes) then pop_front p.envelopes p w else (p, w)

  -- The partition stands in the map again, or is flushed.
  unfoldable pub settle : Partition E K → Worker E K → Worker E K
  unfolding should_flush flush_partition delete
  settle p w =
      let others = record w { partitions = delete b p.key w.partitions } in
      if should_flush config p
      then flush_partition m b config world p others
      else record others { partitions = p ∷ others.partitions }

  unfoldable pub push_and_settle : E → Partition E K × Worker E K → Worker E K
  unfolding settle push_back
  push_and_settle env (p, w) = settle (push_back m env p) w

  unfoldable pub reject : E → Worker E K → Worker E K
  unfolding emit fetch_add
  reject env w = emit (SelfEvent.too_large (m.compute_size env)) (record w {
    counters = record w.counters { envelope_too_large = fetch_add w.counters.envelope_too_large };
  })

  unfoldable pub admit : E → Worker E K → Worker E K
  unfolding reject entry make_room push_and_settle
  admit env w =
      if ltb u32_max (m.compute_size env)
      then reject env w
      else push_and_settle env (make_room (entry (b.partition_key env) w.partitions) w)

  unfoldable pub flush_key : Option K → Worker E K → Worker E K
  unfolding find delete flush_partition
  flush_key k w = elim (find b k w.partitions) [
    | none ↦ w
    | some p ↦
        flush_partition m b config world p (record w { partitions = delete b k w.partitions })
  ]

  unfoldable pub flush_keys : List (Option K) → Worker E K → Worker E K
  unfolding flush_key
  flush_keys [] w = w
  flush_keys (k ∷ ks) w = flush_keys ks (flush_key k w)

  unfoldable pub flush_aged : Worker E K → Worker E K
  unfolding flush_keys aged
  flush_aged w = flush_keys (aged config world.now w.partitions) w

  unfoldable pub drain_envelopes : Option K → Text → List E → Worker E K → Worker E K
  unfolding spool_and_emit described label_of
  drain_envelopes key key_hex [] w = w
  drain_envelopes key key_hex (env ∷ envs) w =
      let (backend_key, partition) = described b key in
      spool_and_emit m b config world key key_hex backend_key (label_of key_hex partition)
        (env ∷ envs) 0 Reason.shutdown_drain w

  unfoldable pub drain_key : Option K → Worker E K → Worker E K
  unfolding find delete drain_envelopes
  drain_key k w = elim (find b k w.partitions) [
    | none ↦ w
    | some p ↦
        drain_envelopes p.key p.key_hex p.envelopes
          (record w { partitions = delete b k w.partitions })
  ]

  unfoldable pub drain_keys : List (Option K) → Worker E K → Worker E K
  unfolding drain_key
  drain_keys [] w = w
  drain_keys (k ∷ ks) w = drain_keys ks (drain_key k w)

  unfoldable pub drain_on_shutdown : Worker E K → Worker E K
  unfolding drain_keys key_of_partition
  drain_on_shutdown w = drain_keys (map key_of_partition w.partitions) w
