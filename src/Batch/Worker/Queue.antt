-- ===== src/Batch/Worker/Queue.antt =====
-- Each partition of the worker as a queue: what has left it, and what it holds.
use obs.Prelude.{
  ◌≡◌, refl, sym, ap, ◌∙◌, inl, inr, Bool-cases, Option, List, [], ◌∷◌, ◌++◌, append_assoc,
  append-nil, Text, if◌then◌else◌,
}
use obs.Wire.Message.{Message}
use obs.Batch.Worker.State.{
  BatchBackend, BatchConfig, World, Reason, Fate, Partition, Worker, opt_eq, clear_reported,
}
use obs.Batch.Worker.Flush.{flush_envelopes, flush_partition}
use obs.Batch.Worker.Admit.{drain_envelopes}
use obs.Batch.Worker.Leaves.{Leaves, spool_and_emit-Leaves, flush_batch-Leaves}

module _ {E K Body : Type 0} (b : BatchBackend E K Body) where
  -- All that a queue needs of a worker: what has left the partition of a key.
  unfoldable pub gone : Option K → List (Fate × Option K × List E) → List E
  gone j [] = []
  gone j ((fate, key, envs) ∷ l) = (if opt_eq b key j then envs else []) ++ gone j l

  pub gone-append :
      (j : Option K) (l l' : List (Fate × Option K × List E))
      → gone j (l ++ l') ≡ gone j l ++ gone j l'
  unfolding gone
  gone-append j [] l' = refl
  gone-append j ((fate, key, envs) ∷ l) l' =
      rw (gone-append j l l')
        (sym (append_assoc (if opt_eq b key j then envs else []) (gone j l) (gone j l')))

  -- What a partition with this key and these envelopes adds to the queue of `j`.
  unfoldable pub share : Option K → Option K → List E → List E
  share j key envs = if opt_eq b key j then envs else []

-- The envelopes of the partition are behind those that had left before, and no partition has changed.
pub record Flushes {E K Body : Type 0} (b : BatchBackend E K Body) (key : Option K) (envs : List E)
    (w w' : Worker E K) : Type 0 where
  pub goes : (j : Option K) → gone b j w'.left ≡ gone b j w.left ++ share b j key envs
  pub partitions_stay : w'.partitions ≡ w.partitions
  pub evicted_stays : w'.counters.partition_evicted ≡ w.counters.partition_evicted

module _ {E K Body : Type 0} (m : Message E) (b : BatchBackend E K Body) (config : BatchConfig)
    (world : World K Body) where
  Flushes-Leaves :
      (key : Option K) (envs : List E) (w w' : Worker E K)
      → Leaves key envs w w'
      → Flushes b key envs w w'
  unfolding share gone
  Flushes-Leaves key envs w w' l = record {
    goes = λ j.
        ap (gone b j) l.left_once
        ∙ gone-append b j w.left ((l.fate, key, envs) ∷ [])
        ∙ ap (λ t. gone b j w.left ++ t) (append-nil (share b j key envs));
    partitions_stay = l.partitions_stay;
    evicted_stays = l.evicted_stays;
  }

  share-nil : (j key : Option K) → share b j key [] ≡ []
  unfolding share
  share-nil j key = elim (Bool-cases (opt_eq b key j)) [
    | inl e ↦ rw (share, e) refl
    | inr e ↦ rw (share, e) refl
  ]

  Flushes-nil : (key : Option K) (w : Worker E K) → Flushes b key [] w w
  Flushes-nil key w = record {
    goes = λ j.
        sym (append-nil (gone b j w.left)) ∙ ap (λ t. gone b j w.left ++ t) (sym (share-nil j key));
    partitions_stay = refl;
    evicted_stays = refl;
  }

  pub flush_partition-Flushes :
      (p : Partition E K) (w : Worker E K)
      → Flushes b p.key p.envelopes w (flush_partition m b config world p w)
  unfolding flush_partition clear_reported
  flush_partition-Flushes p w = record {
    goes = (go p.envelopes).goes;
    partitions_stay = (go p.envelopes).partitions_stay;
    evicted_stays = (go p.envelopes).evicted_stays;
  }
    where
      go :
          (envs : List E)
          → Flushes b p.key envs
              (clear_reported w)
              (flush_envelopes m b config world p.key p.key_hex envs (clear_reported w))
      go [] = unfold flush_envelopes in Flushes-nil p.key (clear_reported w)
      go (env ∷ envs) =
          unfold flush_envelopes in
          Flushes-Leaves p.key (env ∷ envs) (clear_reported w) _ (
            flush_batch-Leaves m b config world p.key p.key_hex _ _ (env ∷ envs) (clear_reported w))

  pub drain_envelopes-Flushes :
      (key : Option K) (key_hex : Text) (envs : List E) (w : Worker E K)
      → Flushes b key envs w (drain_envelopes m b config world key key_hex envs w)
  unfolding drain_envelopes
  drain_envelopes-Flushes key key_hex [] w = Flushes-nil key w
  drain_envelopes-Flushes key key_hex (env ∷ envs) w = Flushes-Leaves key (env ∷ envs) w _ (
      spool_and_emit-Leaves m b config world key key_hex _ _ (env ∷ envs) 0 Reason.shutdown_drain w)
