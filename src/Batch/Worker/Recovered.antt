-- ===== src/Batch/Worker/Recovered.antt =====
-- What a reshipment does to the files of the spool.
use obs.Prelude.{
  ℕ, zero, suc, ◌+◌, ◌≤◌, ◌≡◌, refl, ap, ◌∙◌, ◌⊎◌, inl, inr, Bool-cases, Option, none, some,
  Option-cases, List, [], ◌∷◌, ◌++◌, Text, leb, leb→le, ltb, Result, ok, Result-cases, arith,
}
use obs.Wire.Message.{Message}
use obs.Batch.Spool.{File, remove}
use obs.Batch.Worker.State.{
  BatchBackend, BatchConfig, UploadError, World, Reason, Worker, emit, label_of,
}
use obs.Batch.Worker.Flush.{
  Uploaded, done, fatal, exhausted, upload_loop, note_retry, count_retry, reason_of,
}
use obs.Batch.Worker.Reship.{
  SpoolRecord, find_file, remove_file, move_to_failed, escalate_if_stuck, after_reship, reship_as,
  reship_envelopes, try_reship,
}
use obs.Batch.Worker.Upload.{Explains, upload_loop-Explains}

-- Both trees of files are as before.
record IsKept {E K : Type 0} (w w' : Worker E K) : Type 0 where
  same_files : w'.files ≡ w.files
  same_failed : w'.failed_files ≡ w.failed_files

module _ {E K : Type 0} (config : BatchConfig) where
  note_retry-IsKept :
      (backend_key label : Text) (attempt : ℕ) (msg : Text) (w : Worker E K)
      → IsKept w (note_retry config backend_key label attempt msg w)
  unfolding note_retry emit count_retry
  note_retry-IsKept backend_key label attempt msg w =
      elim (Bool-cases (ltb attempt config.max_attempts)) [
        | inl e ↦ rw (note_retry, e) (record { same_files = refl; same_failed = refl })
        | inr e ↦ rw (note_retry, e) (record { same_files = refl; same_failed = refl })
      ]

  upload_loop-IsKept :
      (upload : ℕ → Result UploadError (Unit {0})) (backend_key label : Text) (rounds attempt : ℕ)
      (last_err : Option Text) (w : Worker E K)
      → IsKept w (upload_loop config upload backend_key label rounds attempt last_err w).1
  unfolding upload_loop
  upload_loop-IsKept upload backend_key label zero attempt last_err w = record {
    same_files = refl;
    same_failed = refl;
  }
  upload_loop-IsKept upload backend_key label (suc rounds) attempt last_err w =
      elim (Result-cases (upload (attempt + 1))) [
        | inl (u, e) ↦ rw (upload_loop, e) (record { same_files = refl; same_failed = refl })
        | inr (UploadError.fatal msg, e) ↦
            rw (upload_loop, e) (record { same_files = refl; same_failed = refl })
        | inr (UploadError.retry msg, e) ↦
            let here = note_retry-IsKept backend_key label (attempt + 1) msg w in
            let more =
              upload_loop-IsKept upload backend_key label rounds (attempt + 1) (some msg)
                (note_retry config backend_key label (attempt + 1) msg w) in
            rw (upload_loop, e)
              (record {
                same_files = more.same_files ∙ here.same_files;
                same_failed = more.same_failed ∙ here.same_failed;
              })
      ]

module _ {E K Body : Type 0} (b : BatchBackend E K Body) (config : BatchConfig)
    (world : World K Body) where
  -- One of the first `max_attempts` answers of the backend takes the envelopes of a record.
  abbrev pub IsTaken : SpoolRecord E → Type 0
  IsTaken rec =
      (key : K) × (body : Body) × (n : ℕ) × (b.encode_batch key rec.envelopes ≡ ok body)
      × (n ≤ config.max_attempts)
      × (world.upload key body n ≡ ok tt)

  -- The file is removed and not kept elsewhere, for a reason; or it is moved to the failed ones
  -- after its time; or nothing has happened to the files.
  pub data Outcome (rec : SpoolRecord E) (w w' : Worker E K) : Type 0 where
    stays : w'.files ≡ w.files → w'.failed_files ≡ w.failed_files → Outcome rec w w'
    removed :
        w'.files ≡ remove rec.path w.files
        → w'.failed_files ≡ w.failed_files
        → (rec.envelopes ≡ []) ⊎ IsTaken rec
        → Outcome rec w w'
    moved :
        (f : File)
        → find_file rec.path w.files ≡ some f
        → w'.files ≡ remove rec.path w.files
        → w'.failed_files ≡ w.failed_files ++ (f ∷ [])
        → rec.first_failed_at_ms + config.escalate_after_ms ≤ world.now
        → Outcome rec w w'

module _ {E K Body : Type 0} (m : Message E) (b : BatchBackend E K Body) (config : BatchConfig)
    (world : World K Body) where
  remove_file-Outcome :
      (rec : SpoolRecord E) (w w0 : Worker E K)
      → IsKept w w0
      → (rec.envelopes ≡ []) ⊎ IsTaken b config world rec
      → Outcome b config world rec w (remove_file m b config world rec.path w0)
  unfolding remove_file
  remove_file-Outcome rec w w0 kept why = elim (Bool-cases (world.can_remove rec.path)) [
    | inl e ↦
        rw (remove_file, e) (removed (ap (remove rec.path) kept.same_files) kept.same_failed why)
    | inr e ↦ rw (remove_file, e) (stays kept.same_files kept.same_failed)
  ]

  escalate_if_stuck-Outcome :
      (rec : SpoolRecord E) (label : Text) (why : Reason) (w w0 : Worker E K)
      → IsKept w w0
      → Outcome b config world rec w
          (escalate_if_stuck m b config world rec.path label rec.first_failed_at_ms why w0)
  unfolding escalate_if_stuck move_to_failed emit
  escalate_if_stuck-Outcome rec label why w w0 kept =
      elim (Bool-cases (leb (rec.first_failed_at_ms + config.escalate_after_ms) world.now)) [
        | inr e ↦ rw (escalate_if_stuck, e) (stays kept.same_files kept.same_failed)
        | inl e ↦ elim (Bool-cases (world.can_move rec.path)) [
          | inr f ↦
              rw (escalate_if_stuck, e, move_to_failed, f) (stays kept.same_files kept.same_failed)
          | inl f ↦ elim (Option-cases (find_file rec.path w0.files)) [
            | inl g ↦
                rw (escalate_if_stuck, e, move_to_failed, f, g)
                  (stays kept.same_files kept.same_failed)
            | inr (file, g) ↦
                rw (escalate_if_stuck, e, move_to_failed, f, g)
                  (moved file (rw kept.same_files at g) (ap (remove rec.path) kept.same_files)
                    (ap (λ t. t ++ (file ∷ [])) kept.same_failed) (leb→le _ _ e))
          ]
        ]
      ]

  after_reship-Outcome :
      (rec : SpoolRecord E) (label : Text) (key : K) (body : Body) (u : Uploaded)
      (w w0 : Worker E K)
      → IsKept w w0
      → b.encode_batch key rec.envelopes ≡ ok body
      → Explains (world.upload key body) 0 config.max_attempts u
      → Outcome b config world rec w (after_reship m b config world rec label (u, w0))
  unfolding after_reship emit
  after_reship-Outcome rec label key body (done n) w w0 kept e (k, small, at, before, here) =
      remove_file-Outcome rec w _
        (record { same_files = kept.same_files; same_failed = kept.same_failed })
        (inr (key, body, n, e, omega arith, here))
  after_reship-Outcome rec label key body (fatal n msg) w w0 kept e x =
      escalate_if_stuck-Outcome rec label (Reason.upload msg) w w0 kept
  after_reship-Outcome rec label key body (exhausted n last_err) w w0 kept e x =
      escalate_if_stuck-Outcome rec label (reason_of last_err) w w0 kept

  reship_as-Outcome :
      (rec : SpoolRecord E) (k : Option K) (w : Worker E K)
      → Outcome b config world rec w (reship_as m b config world rec k w)
  unfolding reship_as
  reship_as-Outcome rec none w = stays refl refl
  reship_as-Outcome rec (some key) w = elim (Result-cases (b.encode_batch key rec.envelopes)) [
    | inr (msg, e) ↦
        rw (reship_as, e)
          (escalate_if_stuck-Outcome rec _ (Reason.encode msg) w w
            (record { same_files = refl; same_failed = refl }))
    | inl (body, e) ↦
        let label = label_of rec.partition_hex (b.describe_key key).1 in
        let tried =
          upload_loop config (world.upload key body) (b.describe_key key).0 label
            config.max_attempts 0 none w in
        rw (reship_as, e)
          (after_reship-Outcome rec label key body tried.0 w tried.1
            (upload_loop-IsKept config (world.upload key body) _ label config.max_attempts 0 none w)
            e
            (upload_loop-Explains config (world.upload key body) _ label config.max_attempts 0 none
              w))
  ]

  -- A reshipment removes a file of the spool only if the backend has accepted its envelopes within
  -- `max_attempts` or it holds none, moves it to the failed ones only when its time is over, and
  -- does nothing else to the files.
  pub try_reship-Outcome :
      (rec : SpoolRecord E) (w : Worker E K)
      → Outcome b config world rec w (try_reship m b config world rec w)
  unfolding try_reship
  try_reship-Outcome rec w = go rec.envelopes refl
    where
      go :
          (envs : List E)
          → rec.envelopes ≡ envs
          → Outcome b config world rec w (reship_envelopes m b config world rec envs w)
      go [] e =
          unfold reship_envelopes in
          remove_file-Outcome rec w w (record { same_files = refl; same_failed = refl }) (inl e)
      go (first ∷ envs) e =
          unfold reship_envelopes in reship_as-Outcome rec (b.partition_key first) w
