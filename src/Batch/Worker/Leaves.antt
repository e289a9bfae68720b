-- ===== src/Batch/Worker/Leaves.antt =====
-- What a flush does to the history of the worker.
use obs.Prelude.{
  ℕ, zero, suc, ◌+◌, ◌≡◌, refl, ap, ◌∙◌, inl, inr, Bool-cases, Option, none, some, Option-cases,
  List, [], ◌∷◌, ◌++◌, Text, ltb, Result, Result-cases,
}
use obs.Wire.Message.{Message}
use obs.Batch.Worker.State.{
  BatchBackend, BatchConfig, UploadError, World, Reason, Fate, Worker, emit, leave,
}
use obs.Batch.Worker.Flush.{
  Uploaded, done, fatal, exhausted, count_retry, note_retry, upload_loop, spool_write,
  spool_and_emit, after_upload, flush_batch,
}

-- What touches neither the partitions nor the history, and evicts nothing.
pub record IsAside {E K : Type 0} (w w' : Worker E K) : Type 0 where
  pub same_partitions : w'.partitions ≡ w.partitions
  pub same_left : w'.left ≡ w.left
  pub same_evicted : w'.counters.partition_evicted ≡ w.counters.partition_evicted

module _ {E K : Type 0} (config : BatchConfig) where
  note_retry-IsAside :
      (backend_key label : Text) (attempt : ℕ) (msg : Text) (w : Worker E K)
      → IsAside w (note_retry config backend_key label attempt msg w)
  unfolding note_retry emit count_retry
  note_retry-IsAside backend_key label attempt msg w =
      elim (Bool-cases (ltb attempt config.max_attempts)) [
        | inl e ↦
            rw (note_retry, e)
              (record { same_partitions = refl; same_left = refl; same_evicted = refl })
        | inr e ↦
            rw (note_retry, e)
              (record { same_partitions = refl; same_left = refl; same_evicted = refl })
      ]

  pub upload_loop-IsAside :
      (upload : ℕ → Result UploadError (Unit {0})) (backend_key label : Text) (rounds attempt : ℕ)
      (last_err : Option Text) (w : Worker E K)
      → IsAside w (upload_loop config upload backend_key label rounds attempt last_err w).1
  unfolding upload_loop
  upload_loop-IsAside upload backend_key label zero attempt last_err w = record {
    same_partitions = refl;
    same_left = refl;
    same_evicted = refl;
  }
  upload_loop-IsAside upload backend_key label (suc rounds) attempt last_err w =
      elim (Result-cases (upload (attempt + 1))) [
        | inl (u, e) ↦
            rw (upload_loop, e)
              (record { same_partitions = refl; same_left = refl; same_evicted = refl })
        | inr (UploadError.fatal msg, e) ↦
            rw (upload_loop, e)
              (record { same_partitions = refl; same_left = refl; same_evicted = refl })
        | inr (UploadError.retry msg, e) ↦
            let here = note_retry-IsAside backend_key label (attempt + 1) msg w in
            let more =
              upload_loop-IsAside upload backend_key label rounds (attempt + 1) (some msg)
                (note_retry config backend_key label (attempt + 1) msg w) in
            rw (upload_loop, e)
              (record {
                same_partitions = more.same_partitions ∙ here.same_partitions;
                same_left = more.same_left ∙ here.same_left;
                same_evicted = more.same_evicted ∙ here.same_evicted;
              })
      ]

-- The envelopes leave their partition together, with one fate, and the others stay.
pub record Leaves {E K : Type 0} (key : Option K) (envs : List E) (w w' : Worker E K) : Type 0 where
  pub fate : Fate
  pub left_once : w'.left ≡ w.left ++ ((fate, key, envs) ∷ [])
  pub partitions_stay : w'.partitions ≡ w.partitions
  pub evicted_stays : w'.counters.partition_evicted ≡ w.counters.partition_evicted

module _ {E K Body : Type 0} (m : Message E) (b : BatchBackend E K Body) (config : BatchConfig)
    (world : World K Body) where
  pub spool_and_emit-Leaves :
      (key : Option K) (key_hex backend_key label : Text) (envs : List E) (attempts : ℕ)
      (reason : Reason) (w : Worker E K)
      → Leaves key envs w
          (spool_and_emit m b config world key key_hex backend_key label envs attempts reason w)
  unfolding spool_and_emit emit leave
  spool_and_emit-Leaves key key_hex backend_key label envs attempts reason w =
      elim (Option-cases (spool_write m b config world key_hex envs w.files)) [
        | inl e ↦
            rw (spool_and_emit, e)
              (record {
                fate = Fate.is_lost;
                left_once = refl;
                partitions_stay = refl;
                evicted_stays = refl;
              })
        | inr (files, e) ↦
            rw (spool_and_emit, e)
              (record {
                fate = Fate.is_spooled;
                left_once = refl;
                partitions_stay = refl;
                evicted_stays = refl;
              })
      ]

  Leaves-aside :
      (key : Option K) (envs : List E) (w w1 w2 : Worker E K)
      → IsAside w w1
      → Leaves key envs w1 w2
      → Leaves key envs w w2
  Leaves-aside key envs w w1 w2 aside l = record {
    fate = l.fate;
    left_once = l.left_once ∙ ap (λ t. t ++ ((l.fate, key, envs) ∷ [])) aside.same_left;
    partitions_stay = l.partitions_stay ∙ aside.same_partitions;
    evicted_stays = l.evicted_stays ∙ aside.same_evicted;
  }

  after_upload-Leaves :
      (key : K) (key_hex backend_key label : Text) (envs : List E) (u : Uploaded) (w : Worker E K)
      → Leaves
          (some key)
          envs
          w
          (after_upload m b config world key key_hex backend_key label envs (u, w))
  unfolding after_upload emit leave
  after_upload-Leaves key key_hex backend_key label envs (done attempt) w = record {
    fate = Fate.is_uploaded;
    left_once = refl;
    partitions_stay = refl;
    evicted_stays = refl;
  }
  after_upload-Leaves key key_hex backend_key label envs (fatal attempt msg) w =
      Leaves-aside (some key) envs w (emit _ w) _
        (record { same_partitions = refl; same_left = refl; same_evicted = refl })
        (spool_and_emit-Leaves (some key) key_hex backend_key label envs attempt (Reason.upload msg)
          (emit _ w))
  after_upload-Leaves key key_hex backend_key label envs (exhausted attempt last_err) w =
      spool_and_emit-Leaves (some key) key_hex backend_key label envs attempt _ w

  pub flush_batch-Leaves :
      (key : Option K) (key_hex backend_key label : Text) (envs : List E) (w : Worker E K)
      → Leaves key envs w (flush_batch m b config world key key_hex backend_key label envs w)
  unfolding flush_batch emit
  flush_batch-Leaves none key_hex backend_key label envs w =
      spool_and_emit-Leaves none key_hex backend_key label envs 0 Reason.no_partition_key w
  flush_batch-Leaves (some key) key_hex backend_key label envs w =
      elim (Result-cases (b.encode_batch key envs)) [
        | inr (msg, e) ↦
            rw (flush_batch, e)
              (Leaves-aside (some key) envs w (emit _ w) _
                (record { same_partitions = refl; same_left = refl; same_evicted = refl })
                (spool_and_emit-Leaves (some key) key_hex backend_key label envs 0
                  (Reason.encode msg) (emit _ w)))
        | inl (body, e) ↦
            let tried =
              upload_loop config (world.upload key body) backend_key label config.max_attempts 0
                none w in
            rw (flush_batch, e)
              (Leaves-aside (some key) envs w tried.1 _
                (upload_loop-IsAside config (world.upload key body) backend_key label
                  config.max_attempts 0 none w)
                (after_upload-Leaves key key_hex backend_key label envs tried.0 tried.1))
      ]
