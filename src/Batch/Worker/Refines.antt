-- ===== src/Batch/Worker/Refines.antt =====
-- The worker as a family of queues, one for each key, over any sequence of events.
use obs.Prelude.{
  ℕ, ◌≡◌, refl, sym, ap, ◌∙◌, ◌⊎◌, inl, inr, true, Bool-cases, Option, none, some, Option-cases,
  List, [], ◌∷◌, ◌++◌, append_assoc, append-nil, map,
}
use obs.Wire.Message.{Message}
use obs.Batch.Spool.{File}
use obs.Batch.Worker.State.{
  BatchBackend, IsKeyed, BatchConfig, World, Partition, Worker, opt_eq, find, delete,
}
use obs.Batch.Worker.Admit.{
  aged, flush_aged, drain_key, drain_keys, drain_on_shutdown, key_of_partition,
}
use obs.Batch.Worker.Run.{Event, arrives, ages, ticks, start, handle, run, live}
use obs.Batch.Worker.Leaves.{IsAside}
use obs.Batch.Worker.Queue.{gone, drain_envelopes-Flushes}
use obs.Batch.Worker.Map.{find-delete, opt_eq→eq}
use obs.Batch.Worker.Fifo.{
  held, queue, envelopes_of, taken, queue-admit, queue-flush_keys, queue-drain_keys,
}
use obs.Batch.Worker.Aside.{on_tick-IsAside}

-- The envelopes that arrive with the key `j` and are not too large, in the order of their arrival.
unfoldable pub arrived :
    {E K Body : Type 0}
    → Message E
    → BatchBackend E K Body
    → Option K
    → List (Event E K Body)
    → List E
unfolding taken
arrived m b j [] = []
arrived m b j (arrives world env ∷ events) = taken m b j env ++ arrived m b j events
arrived m b j (ages world ∷ events) = arrived m b j events
arrived m b j (ticks world is_first ∷ events) = arrived m b j events

module _ {E K Body : Type 0} (m : Message E) (b : BatchBackend E K Body) (keyed : IsKeyed b)
    (config : BatchConfig) where
  drain_key-partitions :
      (world : World K Body) (k : Option K) (p : Partition E K) (w : Worker E K)
      → find b k w.partitions ≡ some p
      → (drain_key m b config world k w).partitions ≡ delete b k w.partitions
  unfolding drain_key
  drain_key-partitions world k p w e =
      rw (drain_key, e)
        (drain_envelopes-Flushes m b config world p.key p.key_hex p.envelopes _).partitions_stay

  -- After a key is drained it is not found, nor is what was not found before.
  find-drain_key :
      (world : World K Body) (j k : Option K) (w : Worker E K)
      → (opt_eq b k j ≡ true) ⊎ (find b j w.partitions ≡ none)
      → find b j (drain_key m b config world k w).partitions ≡ none
  unfolding drain_key
  find-drain_key world j k w h = elim (Option-cases (find b k w.partitions)) [
    | inr (p, e) ↦
        let gone_now = drain_key-partitions world k p w e in
        rw (gone_now, find-delete b keyed j k w.partitions)
          (elim (Bool-cases (opt_eq b k j)) [
            | inl f ↦ rw f refl
            | inr f ↦ elim h [ inl f' ↦ absurd (cc (f, f')) | inr g ↦ rw (f, g) refl ]
          ])
    | inl e ↦ elim h [
      | inl f ↦ rw (drain_key, e, ← opt_eq→eq b keyed k j f) e
      | inr g ↦ rw (drain_key, e) g
    ]
  ]

  find-drain_keys :
      (world : World K Body) (j : Option K) (ps : List (Partition E K)) (w : Worker E K)
      → (find b j ps ≡ none → find b j w.partitions ≡ none)
      → find b j (drain_keys m b config world (map key_of_partition ps) w).partitions ≡ none
  unfolding drain_keys key_of_partition find
  find-drain_keys world j [] w h = h refl
  find-drain_keys world j (p ∷ ps) w h = elim (Bool-cases (opt_eq b p.key j)) [
    | inl e ↦
        find-drain_keys world j ps (drain_key m b config world p.key w)
          (λ f. find-drain_key world j p.key w (inl e))
    | inr e ↦
        find-drain_keys world j ps (drain_key m b config world p.key w)
          (λ f. find-drain_key world j p.key w (inr (h (rw (find, e) f))))
  ]

  queue-handle_aside :
      (j : Option K) (w w' : Worker E K) → IsAside w w' → queue b j w' ≡ queue b j w
  unfolding queue held
  queue-handle_aside j w w' a = rw (queue, a.same_left, a.same_partitions) refl

  queue-run :
      (j : Option K) (events : List (Event E K Body)) (w : Worker E K)
      → queue b j (run m b config events w) ≡ queue b j w ++ arrived m b j events
  unfolding run handle flush_aged arrived
  queue-run j [] w = sym (append-nil (queue b j w))
  queue-run j (arrives world env ∷ events) w =
      queue-run j events (handle m b config (arrives world env) w)
      ∙ ap (λ t. t ++ arrived m b j events) (queue-admit m b keyed config world j env w)
      ∙ append_assoc (queue b j w) _ (arrived m b j events)
  queue-run j (ages world ∷ events) w =
      queue-run j events (handle m b config (ages world) w)
      ∙ ap (λ t. t ++ arrived m b j events)
          (queue-flush_keys m b keyed config world j (aged config world.now w.partitions) w)
  queue-run j (ticks world is_first ∷ events) w =
      queue-run j events (handle m b config (ticks world is_first) w)
      ∙ ap (λ t. t ++ arrived m b j events)
          (queue-handle_aside j w _ (on_tick-IsAside m b config world is_first w))

  -- Whatever arrives, ages and is retried, and whatever backend and disk answer: when the worker has
  -- ended, the envelopes of each key that were not too large have left its partition exactly once,
  -- in the order of their arrival, each uploaded, spooled, evicted or lost with a spool that failed.
  pub live_refines_queues :
      (j : Option K) (seed : ℕ) (files : List File) (events : List (Event E K Body))
      (at_end : World K Body)
      → gone b j (live m b config events at_end (start seed files)).left ≡ arrived m b j events
  unfolding live drain_on_shutdown queue held start find gone envelopes_of
  live_refines_queues j seed files events at_end =
      let w = run m b config events (start seed files) in
      let ended = drain_on_shutdown m b config at_end w in
      let nothing : find b j ended.partitions ≡ none =
        find-drain_keys at_end j w.partitions w (λ e. e) in
      let all : queue b j ended ≡ queue b j w =
        queue-drain_keys m b keyed config at_end j (map key_of_partition w.partitions) w in
      let whole : gone b j ended.left ++ [] ≡ queue b j w = rw (queue, held, nothing) at all in
      sym (append-nil _) ∙ whole ∙ queue-run j events (start seed files)
