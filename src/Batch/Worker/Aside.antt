-- ===== src/Batch/Worker/Aside.antt =====
-- A retry tick touches neither the partitions nor the history.
use obs.Prelude.{
  ℕ, refl, ◌∙◌, inl, inr, Bool, Bool-cases, Option, none, some, Option-cases, List, [], ◌∷◌, Text,
  leb, Result-cases, ◌+◌,
}
use obs.Wire.Message.{Message}
use obs.Batch.Worker.State.{BatchBackend, BatchConfig, World, Reason, Worker, label_of, emit}
use obs.Batch.Worker.Flush.{Uploaded, done, fatal, exhausted, upload_loop, reason_of}
use obs.Batch.Worker.Reship.{
  SpoolRecord, find_file, remove_file, move_to_failed, escalate_if_stuck, after_reship, reship_as,
  reship_envelopes, try_reship, reship_all, list, on_tick,
}
use obs.Batch.Worker.Leaves.{IsAside, upload_loop-IsAside}

module _ {E K Body : Type 0} (m : Message E) (b : BatchBackend E K Body) (config : BatchConfig)
    (world : World K Body) where
  IsAside-refl : (w : Worker E K) → IsAside w w
  IsAside-refl w = record { same_partitions = refl; same_left = refl; same_evicted = refl }

  IsAside-trans : (w1 w2 w3 : Worker E K) → IsAside w1 w2 → IsAside w2 w3 → IsAside w1 w3
  IsAside-trans w1 w2 w3 h k = record {
    same_partitions = k.same_partitions ∙ h.same_partitions;
    same_left = k.same_left ∙ h.same_left;
    same_evicted = k.same_evicted ∙ h.same_evicted;
  }

  escalate_if_stuck-IsAside :
      (path label : Text) (first_failed : ℕ) (why : Reason) (w : Worker E K)
      → IsAside w (escalate_if_stuck m b config world path label first_failed why w)
  unfolding escalate_if_stuck move_to_failed emit
  escalate_if_stuck-IsAside path label first_failed why w =
      elim (Bool-cases (leb (first_failed + config.escalate_after_ms) world.now)) [
        | inr e ↦ rw (escalate_if_stuck, e) (IsAside-refl w)
        | inl e ↦ elim (Bool-cases (world.can_move path)) [
          | inr f ↦ rw (escalate_if_stuck, e, move_to_failed, f) (IsAside-refl w)
          | inl f ↦ elim (Option-cases (find_file path w.files)) [
            | inl g ↦ rw (escalate_if_stuck, e, move_to_failed, f, g) (IsAside-refl w)
            | inr (file, g) ↦
                rw (escalate_if_stuck, e, move_to_failed, f, g)
                  (record { same_partitions = refl; same_left = refl; same_evicted = refl })
          ]
        ]
      ]

  after_reship-IsAside :
      (rec : SpoolRecord E) (label : Text) (u : Uploaded) (w : Worker E K)
      → IsAside w (after_reship m b config world rec label (u, w))
  unfolding after_reship remove_file emit
  after_reship-IsAside rec label (done attempt) w = record {
    same_partitions = refl;
    same_left = refl;
    same_evicted = refl;
  }
  after_reship-IsAside rec label (fatal attempt msg) w =
      escalate_if_stuck-IsAside rec.path label rec.first_failed_at_ms (Reason.upload msg) w
  after_reship-IsAside rec label (exhausted attempt last_err) w =
      escalate_if_stuck-IsAside rec.path label rec.first_failed_at_ms (reason_of last_err) w

  reship_as-IsAside :
      (rec : SpoolRecord E) (k : Option K) (w : Worker E K)
      → IsAside w (reship_as m b config world rec k w)
  unfolding reship_as
  reship_as-IsAside rec none w = IsAside-refl w
  reship_as-IsAside rec (some key) w = elim (Result-cases (b.encode_batch key rec.envelopes)) [
    | inr (msg, e) ↦
        rw (reship_as, e)
          (escalate_if_stuck-IsAside rec.path _ rec.first_failed_at_ms (Reason.encode msg) w)
    | inl (body, e) ↦
        let label = label_of rec.partition_hex (b.describe_key key).1 in
        let tried =
          upload_loop config (world.upload key body) (b.describe_key key).0 label
            config.max_attempts 0 none w in
        rw (reship_as, e)
          (IsAside-trans w tried.1 _
            (upload_loop-IsAside config (world.upload key body) _ label config.max_attempts 0 none
              w)
            (after_reship-IsAside rec label tried.0 tried.1))
  ]

  reship_envelopes-IsAside :
      (rec : SpoolRecord E) (envs : List E) (w : Worker E K)
      → IsAside w (reship_envelopes m b config world rec envs w)
  unfolding reship_envelopes remove_file
  reship_envelopes-IsAside rec [] w = record {
    same_partitions = refl;
    same_left = refl;
    same_evicted = refl;
  }
  reship_envelopes-IsAside rec (first ∷ envs) w = reship_as-IsAside rec (b.partition_key first) w

  reship_all-IsAside :
      (records : List (SpoolRecord E)) (w : Worker E K)
      → IsAside w (reship_all m b config world records w)
  unfolding reship_all try_reship
  reship_all-IsAside [] w = IsAside-refl w
  reship_all-IsAside (rec ∷ records) w =
      let first = reship_envelopes-IsAside rec rec.envelopes w in
      IsAside-trans w _ _ first (reship_all-IsAside records (try_reship m b config world rec w))

  pub on_tick-IsAside :
      (is_first : Bool) (w : Worker E K) → IsAside w (on_tick m b config world is_first w)
  unfolding on_tick emit
  on_tick-IsAside is_first w = elim (Bool-cases world.can_list) [
    | inl e ↦
        let listed = list m world.can_remove w.files in
        let start = record w { files = listed.1 } in
        rw (on_tick, e)
          (IsAside-trans w start _
            (record { same_partitions = refl; same_left = refl; same_evicted = refl })
            (reship_all-IsAside listed.0 start))
    | inr e ↦ elim (Bool-cases is_first) [
      | inl f ↦
          rw (on_tick, e, f)
            (record { same_partitions = refl; same_left = refl; same_evicted = refl })
      | inr f ↦ rw (on_tick, e, f) (IsAside-refl w)
    ]
  ]
