-- ===== src/Batch/Worker/Upload.antt =====
-- Which of the answers of the backend decides on a batch (crates/obs-sink-batch/src/sink.rs).
use obs.Batch.Spool.{File}
use obs.Prelude.{
  ℕ, zero, suc, ◌+◌, ◌<◌, ◌≡◌, inl, inr, Option, none, some, List, Text, Result, ok, err,
  Result-cases, arith,
}
use obs.Wire.Message.{Message}
use obs.Batch.Worker.State.{BatchConfig, UploadError, Fate, Worker}
use obs.Batch.Worker.Flush.{Uploaded, done, fatal, exhausted, upload_loop}

-- The `n` answers after the first `attempt` ones ask for a retry.
abbrev pub Retried : (ℕ → Result UploadError (Unit {0})) → ℕ → ℕ → Type 0
Retried upload attempt zero = Unit
Retried upload attempt (suc n) =
    ((msg : Text) × (upload (attempt + 1) ≡ err (UploadError.retry msg)))
    × Retried upload (attempt + 1) n

-- The end of the loop is that of the first answer that asks for no retry, if one of the next
-- `rounds` does so.
abbrev pub Explains : (ℕ → Result UploadError (Unit {0})) → ℕ → ℕ → Uploaded → Type 0
Explains upload attempt rounds (done n) =
    (k : ℕ) × (k < rounds) × (n ≡ attempt + k + 1) × Retried upload attempt k × (upload n ≡ ok tt)
Explains upload attempt rounds (fatal n msg) =
    (k : ℕ) × (k < rounds)
    × (n ≡ attempt + k + 1)
    × Retried upload attempt k
    × (upload n ≡ err (UploadError.fatal msg))
Explains upload attempt rounds (exhausted n last_err) =
    (n ≡ attempt + rounds) × Retried upload attempt rounds

-- What a write to the spool means for a batch, and the files behind it: `none` is a write that failed.
abbrev pub Spools : Option (List File) → List File → Fate → List File → Type 0
Spools none before fate files = (fate ≡ Fate.is_lost) × (files ≡ before)
Spools (some written) before fate files = (fate ≡ Fate.is_spooled) × (files ≡ written)

-- What the end of the loop means for the batch and for the files of the spool.
abbrev pub Decides : Uploaded → Option (List File) → List File → Fate → List File → Type 0
Decides (done n) written before fate files = (fate ≡ Fate.is_uploaded) × (files ≡ before)
Decides (fatal n msg) written before fate files = Spools written before fate files
Decides (exhausted n last_err) written before fate files = Spools written before fate files

Explains-later :
    (upload : ℕ → Result UploadError (Unit {0})) (attempt rounds : ℕ) (u : Uploaded) (msg : Text)
    → upload (attempt + 1) ≡ err (UploadError.retry msg)
    → Explains upload (attempt + 1) rounds u
    → Explains upload attempt (suc rounds) u
Explains-later upload attempt rounds (done n) msg e (k, small, at, before, here) =
    (suc k, omega arith, omega arith, ((msg, e), before), here)
Explains-later upload attempt rounds (fatal n why) msg e (k, small, at, before, here) =
    (suc k, omega arith, omega arith, ((msg, e), before), here)
Explains-later upload attempt rounds (exhausted n last_err) msg e (at, before) =
    (omega arith, ((msg, e), before))

module _ {E K : Type 0} (config : BatchConfig) where
  pub upload_loop-Explains :
      (upload : ℕ → Result UploadError (Unit {0})) (backend_key label : Text) (rounds attempt : ℕ)
      (last_err : Option Text) (w : Worker E K)
      → Explains upload attempt rounds
          (upload_loop config upload backend_key label rounds attempt last_err w).0
  unfolding upload_loop
  upload_loop-Explains upload backend_key label zero attempt last_err w = (omega arith, tt)
  upload_loop-Explains upload backend_key label (suc rounds) attempt last_err w =
      elim (Result-cases (upload (attempt + 1))) [
        | inl (accepted, e) ↦ rw (upload_loop, e) (0, omega arith, omega arith, tt, e)
        | inr (UploadError.fatal msg, e) ↦ rw (upload_loop, e) (0, omega arith, omega arith, tt, e)
        | inr (UploadError.retry msg, e) ↦
            rw (upload_loop, e)
              (Explains-later upload attempt rounds _ msg e
                (upload_loop-Explains upload backend_key label rounds (attempt + 1) (some msg) _))
      ]
