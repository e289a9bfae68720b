-- ===== src/Batch/Worker/Bounds.antt =====
-- How full a partition gets between two events.
use obs.Prelude.{
  ℕ, ◌+◌, ◌^◌, ◌-◌, ◌<◌, ◌≡◌, refl, ◌∙◌, ◌⊎◌, inl, inr, min, false, Bool-cases, Option, some,
  Option-cases, List, [], ◌∷◌, ◌++◌, All, length, length-append, leb, ltb, arith,
}
use obs.Wire.Message.{Message}
use obs.Batch.Spool.{File, u32_max}
use obs.Batch.Worker.State.{
  BatchBackend, BatchConfig, World, Partition, Worker, opt_eq, find, delete, emit,
}
use obs.Batch.Worker.Flush.{bytes_of}
use obs.Batch.Worker.Admit.{
  entry, make_room, push_back, should_flush, settle, push_and_settle, reject, admit, flush_key,
  flush_keys, aged, flush_aged, ring_cap,
}
use obs.Batch.Worker.Run.{Event, arrives, ages, ticks, start, handle, run}
use obs.Batch.Worker.Queue.{flush_partition-Flushes}
use obs.Batch.Worker.Aside.{on_tick-IsAside}

-- What the map holds of a partition: less than either trigger, and its bytes as a saturating sum.
pub record IsOpen {E K : Type 0} (m : Message E) (config : BatchConfig) (p : Partition E K)
    : Type 0 where
  pub few : length p.envelopes < config.max_events
  pub small : p.bytes < config.max_bytes
  pub measured : p.bytes ≡ min (bytes_of m p.envelopes) (2 ^ 64 - 1)

-- Nothing was evicted, and each partition of the map is open.
pub record IsCalm {E K : Type 0} (m : Message E) (config : BatchConfig) (w : Worker E K)
    : Type 0 where
  pub none_evicted : w.counters.partition_evicted ≡ 0
  pub all_open : All (IsOpen m config) w.partitions

module _ {E K Body : Type 0} (m : Message E) (b : BatchBackend E K Body)
    (config : BatchConfig) where
  All-delete :
      (P : Partition E K → Type 0) (k : Option K) (ps : List (Partition E K))
      → All P ps
      → All P (delete b k ps)
  unfolding delete
  All-delete P k [] h = tt
  All-delete P k (p ∷ ps) h = elim (Bool-cases (opt_eq b p.key k)) [
    | inl e ↦ rw (delete, e) (All-delete P k ps h.1)
    | inr e ↦ rw (delete, e) (h.0, All-delete P k ps h.1)
  ]

  All-find :
      (P : Partition E K → Type 0) (k : Option K) (ps : List (Partition E K)) {p : Partition E K}
      → All P ps
      → find b k ps ≡ some p
      → P p
  unfolding find
  All-find P k [] h e = absurd (cc)
  All-find P k (q ∷ ps) {p} h e = elim (Bool-cases (opt_eq b q.key k)) [
    | inl f ↦
        let found : some q ≡ some p = rw (find, f) at e in let same : q ≡ p = cc in rw (← same) h.0
    | inr f ↦ All-find P k ps h.1 (rw (find, f) at e)
  ]

bytes_of-append :
    {E : Type 0} (m : Message E) (xs ys : List E)
    → bytes_of m (xs ++ ys) ≡ bytes_of m xs + bytes_of m ys
unfolding bytes_of
bytes_of-append m [] ys = omega arith
bytes_of-append m (x ∷ xs) ys = omega (arith, bytes_of-append m xs ys)

-- An entry is open, or as good as empty.
record IsEntry {E K : Type 0} (m : Message E) (config : BatchConfig) (p : Partition E K)
    : Type 0 where
  room : length p.envelopes ≡ 0 ⊎ (length p.envelopes < config.max_events)
  measured : p.bytes ≡ min (bytes_of m p.envelopes) (2 ^ 64 - 1)

module _ {E K Body : Type 0} (m : Message E) (b : BatchBackend E K Body) (config : BatchConfig)
    (limit : config.max_events < 2 ^ 32) (world : World K Body) where
  entry-IsEntry :
      (k : Option K) (ps : List (Partition E K))
      → All (IsOpen m config) ps
      → IsEntry m config (entry m b config world k ps)
  unfolding entry bytes_of
  entry-IsEntry k ps h = elim (Option-cases (find b k ps)) [
    | inl e ↦ rw (entry, e) (record { room = inl refl; measured = refl })
    | inr (p, e) ↦
        let open_p = All-find m b config (IsOpen m config) k ps h e in
        rw (entry, e) (record { room = inr open_p.few; measured = open_p.measured })
  ]

  make_room-stays :
      (p : Partition E K) (w : Worker E K)
      → IsEntry m config p
      → make_room m b config world p w ≡ (p, w)
  unfolding make_room ring_cap
  make_room-stays p w h =
      let off : leb (ring_cap config) (length p.envelopes) ≡ false = ground (arith, h.room) in
      rw (make_room, off) refl

  push_back-IsOpen :
      (env : E) (p : Partition E K)
      → IsEntry m config p
      → should_flush config (push_back m env p) ≡ false
      → IsOpen m config (push_back m env p)
  unfolding push_back should_flush bytes_of
  push_back-IsOpen env p h e =
      let longer = length-append {0} p.envelopes (env ∷ []) in
      record {
        few = ground (arith, e, h.room, longer);
        small = ground (arith, e);
        measured = omega (arith, h.measured, bytes_of-append m p.envelopes (env ∷ []));
      }

  settle-IsCalm :
      (p : Partition E K) (w : Worker E K)
      → (should_flush config p ≡ false → IsOpen m config p)
      → IsCalm m config w
      → IsCalm m config (settle m b config world p w)
  unfolding settle
  settle-IsCalm p w opens h = elim (Bool-cases (should_flush config p)) [
    | inl e ↦
        let f =
          flush_partition-Flushes m b config world p
            (record w { partitions = delete b p.key w.partitions }) in
        rw (settle, e)
          (record {
            none_evicted = f.evicted_stays ∙ h.none_evicted;
            all_open =
                rw f.partitions_stay
                  (All-delete m b config (IsOpen m config) p.key w.partitions h.all_open);
          })
    | inr e ↦
        rw (settle, e)
          (record {
            none_evicted = h.none_evicted;
            all_open =
                (opens e, All-delete m b config (IsOpen m config) p.key w.partitions h.all_open);
          })
  ]

  admit-IsCalm :
      (env : E) (w : Worker E K)
      → IsCalm m config w
      → IsCalm m config (admit m b config world env w)
  unfolding admit reject emit push_and_settle
  admit-IsCalm env w h = elim (Bool-cases (ltb u32_max (m.compute_size env))) [
    | inl e ↦ rw (admit, e) (record { none_evicted = h.none_evicted; all_open = h.all_open })
    | inr e ↦
        let p = entry m b config world (b.partition_key env) w.partitions in
        let is_entry = entry-IsEntry (b.partition_key env) w.partitions h.all_open in
        rw (admit, e, make_room-stays p w is_entry)
          (settle-IsCalm (push_back m env p) w (push_back-IsOpen env p is_entry) h)
  ]

  flush_key-IsCalm :
      (k : Option K) (w : Worker E K)
      → IsCalm m config w
      → IsCalm m config (flush_key m b config world k w)
  unfolding flush_key
  flush_key-IsCalm k w h = elim (Option-cases (find b k w.partitions)) [
    | inl e ↦ rw (flush_key, e) h
    | inr (p, e) ↦
        let f =
          flush_partition-Flushes m b config world p
            (record w { partitions = delete b k w.partitions }) in
        rw (flush_key, e)
          (record {
            none_evicted = f.evicted_stays ∙ h.none_evicted;
            all_open =
                rw f.partitions_stay
                  (All-delete m b config (IsOpen m config) k w.partitions h.all_open);
          })
  ]

  flush_keys-IsCalm :
      (ks : List (Option K)) (w : Worker E K)
      → IsCalm m config w
      → IsCalm m config (flush_keys m b config world ks w)
  unfolding flush_keys
  flush_keys-IsCalm [] w h = h
  flush_keys-IsCalm (k ∷ ks) w h = flush_keys-IsCalm ks _ (flush_key-IsCalm k w h)

module _ {E K Body : Type 0} (m : Message E) (b : BatchBackend E K Body) (config : BatchConfig)
    (limit : config.max_events < 2 ^ 32) where
  run-IsCalm :
      (events : List (Event E K Body)) (w : Worker E K)
      → IsCalm m config w
      → IsCalm m config (run m b config events w)
  unfolding run handle flush_aged
  run-IsCalm [] w h = h
  run-IsCalm (arrives world env ∷ events) w h =
      run-IsCalm events _ (admit-IsCalm m b config limit world env w h)
  run-IsCalm (ages world ∷ events) w h =
      run-IsCalm events _
        (flush_keys-IsCalm m b config limit world (aged config world.now w.partitions) w h)
  run-IsCalm (ticks world is_first ∷ events) w h =
      let a = on_tick-IsAside m b config world is_first w in
      run-IsCalm events _ (record {
        none_evicted = a.same_evicted ∙ h.none_evicted;
        all_open = rw a.same_partitions h.all_open;
      })

  -- Between two events, whatever they are, each partition of the map is below both triggers and counts
  -- its bytes as a saturating sum, and no envelope was ever evicted, where `max_events` is a u32.
  pub run-start-IsCalm :
      (seed : ℕ) (files : List File) (events : List (Event E K Body))
      → IsCalm m config (run m b config events (start seed files))
  unfolding start
  run-start-IsCalm seed files events =
      run-IsCalm events (start seed files) (record { none_evicted = refl; all_open = tt })
