-- ===== src/Batch/Worker/Flush.antt =====
-- Flushing a partition: the upload with its retries, and the hand-over to the spool.
use obs.Prelude.{
  ℕ, zero, suc, ◌+◌, ◌-◌, ◌*◌, ◌/◌, ◌%◌, ◌^◌, min, bit_xor, Option, none, some, List, [], ◌∷◌, Text,
  length, ltb, ◌==◌, if◌then◌else◌, Result, ok, err,
}
use obs.Wire.Message.{Message}
use obs.Batch.Spool.{File, u32_max, write}
use obs.Batch.Worker.State.{
  BatchBackend, JitterMode, no_jitter, full_jitter, half_jitter, BatchConfig, UploadError, World,
  Reason, SelfEvent, Fate, Partition, Worker, fetch_add, described, label_of, emit, leave,
  clear_reported,
}

unfoldable pub xor_shift_right : ℕ → ℕ → ℕ
xor_shift_right z k = bit_xor z (z / 2 ^ k)

-- The number and the next state.
unfoldable pub splitmix64 : ℕ → ℕ × ℕ
unfolding xor_shift_right
splitmix64 state =
    let state' = (state + 0x9E3779B97F4A7C15) % 2 ^ 64 in
    let z1 = (xor_shift_right state' 30 * 0xBF58476D1CE4E5B9) % 2 ^ 64 in
    let z2 = (xor_shift_right z1 27 * 0x94D049BB133111EB) % 2 ^ 64 in
    (xor_shift_right z2 31, state')

-- `computed` is below u64::MAX. There the source panics with full jitter, on the sum or, where sums
-- wrap, on the division by 0.
unfoldable pub jitter_ms : JitterMode → ℕ → ℕ → ℕ
jitter_ms no_jitter computed r = computed
jitter_ms full_jitter computed r = if computed == 0 then 0 else r % ((computed + 1) % 2 ^ 64)
jitter_ms half_jitter computed r =
    let half = computed / 2 in if computed == 0 then 0 else half + r % (computed - half + 1)

-- The delay and the next state of the generator, which is not asked where there is no jitter.
unfoldable pub jittered : JitterMode → ℕ → ℕ → ℕ × ℕ
unfolding splitmix64 jitter_ms
jittered no_jitter computed rng_state = (computed, rng_state)
jittered full_jitter computed rng_state =
    let (r, rng_state') = splitmix64 rng_state in (jitter_ms full_jitter computed r, rng_state')
jittered half_jitter computed rng_state =
    let (r, rng_state') = splitmix64 rng_state in (jitter_ms half_jitter computed r, rng_state')

unfoldable pub compute_backoff : BatchConfig → ℕ → ℕ → ℕ × ℕ
unfolding jittered
compute_backoff config attempt rng_state =
    jittered config.jitter (config.computed_ms attempt) rng_state

-- How the loop over the attempts ends, each with the attempts that were made.
pub data Uploaded : Type 0 where
  done : ℕ → Uploaded
  fatal : ℕ → Text → Uploaded
  exhausted : ℕ → Option Text → Uploaded

module _ {E K : Type 0} (config : BatchConfig) where
  unfoldable pub count_retry : ℕ → Worker E K → Worker E K
  unfolding fetch_add compute_backoff
  count_retry attempt w = record w {
    counters = record w.counters { retries = fetch_add w.counters.retries };
    rng_state = (compute_backoff config attempt w.rng_state).1;
  }

  unfoldable pub note_retry : Text → Text → ℕ → Text → Worker E K → Worker E K
  unfolding emit count_retry
  note_retry backend_key label attempt msg w =
      let w' = emit (SelfEvent.retried backend_key label attempt msg) w in
      if ltb attempt config.max_attempts then count_retry attempt w' else w'

  -- The loop that a flush and a reshipment share. `rounds` is what is left of `max_attempts`.
  unfoldable pub upload_loop :
      (ℕ → Result UploadError (Unit {0}))
      → Text
      → Text
      → ℕ
      → ℕ
      → Option Text
      → Worker E K
      → Uploaded × Worker E K
  unfolding note_retry
  upload_loop upload backend_key label zero attempt last_err w = (exhausted attempt last_err, w)
  upload_loop upload backend_key label (suc rounds) attempt last_err w =
      elim (upload (attempt + 1)) [
        | ok _ ↦ (done (attempt + 1), w)
        | err e ↦ elim e [
          | UploadError.fatal msg ↦ (fatal (attempt + 1) msg, w)
          | UploadError.retry msg ↦
              upload_loop upload backend_key label rounds (attempt + 1) (some msg)
                (note_retry backend_key label (attempt + 1) msg w)
        ]
      ]

unfoldable pub bytes_of : {E : Type 0} → Message E → List E → ℕ
bytes_of m [] = 0
bytes_of m (env ∷ envs) = m.compute_size env + bytes_of m envs

unfoldable pub reason_of : Option Text → Reason
reason_of none = Reason.retries_exhausted
reason_of (some msg) = Reason.upload msg

module _ {E K Body : Type 0} (m : Message E) (b : BatchBackend E K Body) (config : BatchConfig)
    (world : World K Body) where
  -- `u32::try_from(envs.len()).unwrap_or(u32::MAX)`
  unfoldable pub events_of : List E → ℕ
  events_of envs = min (length envs) u32_max

  unfoldable pub spool_write : Text → List E → List File → Option (List File)
  unfolding write
  spool_write partition_hex envs files =
      if world.disk_ok partition_hex
      then elim (write m world.dir config.spool_max_bytes (world.file_name partition_hex) envs
          files) [ ok files' ↦ some files' | err e ↦ none ]
      else none

  unfoldable pub spool_and_emit :
      Option K → Text → Text → Text → List E → ℕ → Reason → Worker E K → Worker E K
  unfolding spool_write fetch_add emit leave events_of
  spool_and_emit key partition_hex backend_key label envs attempts reason w =
      elim (spool_write partition_hex envs w.files) [
        | some files' ↦ emit (SelfEvent.spooled backend_key label (events_of envs) attempts) (
            leave Fate.is_spooled key envs (record w {
              files = files';
              counters = record w.counters { spooled = fetch_add w.counters.spooled };
            }))
        | none ↦
            emit (SelfEvent.failed backend_key label attempts (Reason.spool_write_failed reason))
              (leave Fate.is_lost key envs w)
      ]

  unfoldable pub after_upload : K → Text → Text → Text → List E → Uploaded × Worker E K → Worker E K
  unfolding spool_and_emit fetch_add emit leave events_of bytes_of reason_of
  after_upload key partition_hex backend_key label envs (done attempt, w) =
      emit (SelfEvent.uploaded backend_key label (events_of envs) (bytes_of m envs) attempt) (
        leave Fate.is_uploaded (some key) envs
          (record w { counters = record w.counters { uploads = fetch_add w.counters.uploads } }))
  after_upload key partition_hex backend_key label envs (fatal attempt msg, w) =
      spool_and_emit (some key) partition_hex backend_key label envs attempt (Reason.upload msg)
        (emit (SelfEvent.failed backend_key label attempt (Reason.upload msg)) w)
  after_upload key partition_hex backend_key label envs (exhausted attempt last_err, w) =
      spool_and_emit (some key) partition_hex backend_key label envs attempt (reason_of last_err) w

  unfoldable pub flush_batch : Option K → Text → Text → Text → List E → Worker E K → Worker E K
  unfolding spool_and_emit upload_loop after_upload emit
  flush_batch none partition_hex backend_key label envs w =
      spool_and_emit none partition_hex backend_key label envs 0 Reason.no_partition_key w
  flush_batch (some key) partition_hex backend_key label envs w = elim (b.encode_batch key envs) [
    | err msg ↦
        spool_and_emit (some key) partition_hex backend_key label envs 0 (Reason.encode msg)
          (emit (SelfEvent.failed backend_key label 0 (Reason.encode msg)) w)
    | ok body ↦
        after_upload key partition_hex backend_key label envs (
          upload_loop config (world.upload key body) backend_key label config.max_attempts 0 none w)
  ]

  unfoldable pub flush_envelopes : Option K → Text → List E → Worker E K → Worker E K
  unfolding flush_batch described label_of
  flush_envelopes key key_hex [] w = w
  flush_envelopes key key_hex (env ∷ envs) w =
      let (backend_key, partition) = described b key in
      flush_batch key key_hex backend_key (label_of key_hex partition) (env ∷ envs) w

  unfoldable pub flush_partition : Partition E K → Worker E K → Worker E K
  unfolding flush_envelopes clear_reported
  flush_partition p w = flush_envelopes p.key p.key_hex p.envelopes (clear_reported w)
