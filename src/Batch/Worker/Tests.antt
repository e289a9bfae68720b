-- ===== src/Batch/Worker/Tests.antt =====
-- Runs of the worker, and the theorems on it at concrete inputs. An envelope is a flag.
use obs.Prelude.{
  ℕ, ◌≡◌, refl, Bool, true, false, none, some, List, [], ◌∷◌, ◌==◌, if◌then◌else◌, Result, ok, err,
  arith,
}
use obs.Wire.Flag.{flag, flag_size}
use obs.Batch.Spool.{encode_batch, DirAnswers}
use obs.Batch.Worker.State.{
  BatchBackend, IsKeyed, BatchConfig, half_jitter, UploadError, World, Fate,
}
use obs.Batch.Worker.Reship.{SpoolRecord, try_reship, parse_timestamp}
use obs.Batch.Worker.Run.{Event, arrives, start, run, live}
use obs.Batch.Worker.Queue.{gone}
use obs.Batch.Worker.Refines.{arrived, live_refines_queues}
use obs.Batch.Worker.Bounds.{IsCalm, run-start-IsCalm}
use obs.Batch.Worker.Recovered.{Outcome, try_reship-Outcome}

-- One partition for the flags that are set, none for the others; the second attempt succeeds.
abbrev backend : BatchBackend Bool ℕ (List Bool)
backend = record {
  partition_key = λ env. if env then some 1 else none;
  describe_key = λ k. ([], []);
  encode_batch = λ k envs. ok envs;
  key_eq = ◌==◌;
  debug_text = λ k. k ∷ [];
  blake3 = λ bs. bs;
}

backend-IsKeyed : IsKeyed backend
backend-IsKeyed = record { key_eq_refl = λ k. ground arith; key_eq→eq = λ j k h. ground (arith, h) }

abbrev config : BatchConfig
config = record {
  max_events = 2;
  max_bytes = 1000;
  max_age = 20;
  max_attempts = 3;
  computed_ms = λ attempt. attempt;
  jitter = half_jitter;
  spool_max_bytes = 1000;
  escalate_after_ms = 60;
}

abbrev second_attempt : ℕ → List Bool → ℕ → Result UploadError (Unit {0})
second_attempt key body n = if n == 2 then ok tt else err (UploadError.retry [])

abbrev all_succeed : DirAnswers
all_succeed = record {
  can_measure = true;
  can_collect = true;
  other_bytes = 0;
  is_measured = λ path. true;
  can_stat = λ path. true;
  can_unlink = λ path. true;
}

abbrev world : World ℕ (List Bool)
world = record {
  now = 100;
  upload = second_attempt;
  file_name = λ hex. hex;
  disk_ok = λ hex. true;
  dir = all_succeed;
  can_list = true;
  can_remove = λ path. true;
  can_move = λ path. true;
}

abbrev events : List (Event Bool ℕ (List Bool))
events = arrives world true ∷ arrives world false ∷ arrives world true ∷ arrives world true ∷ []

live_refines_queues_example :
    gone backend (some 1) (live flag backend config events world (start 7 [])).left
    ≡ arrived flag backend (some 1) events
live_refines_queues_example =
    live_refines_queues flag backend backend-IsKeyed config (some 1) 7 [] events world

run-start-IsCalm_example : IsCalm flag config (run flag backend config events (start 7 []))
run-start-IsCalm_example = run-start-IsCalm flag backend config (omega arith) 7 [] events

abbrev one_record : SpoolRecord Bool
one_record = record {
  path = b'f' ∷ [];
  envelopes = true ∷ [];
  first_failed_at_ms = 10;
  partition_hex = b'h' ∷ [];
}

try_reship-Outcome_example :
    Outcome backend config world one_record
      (start 7 [])
      (try_reship flag backend config world one_record (start 7 []))
try_reship-Outcome_example = try_reship-Outcome flag backend config world one_record (start 7 [])

-- `h/42-a.spool`
timestamp : parse_timestamp (b'h' ∷ b'/' ∷ b'4' ∷ b'2' ∷ b'-' ∷ b'a' ∷ b'.' ∷ b's' ∷ []) ≡ 42
unfolding parse_timestamp
timestamp = refl

-- Two flags are uploaded at the count trigger, the third is drained, and the one without a key too.
fates :
    (live flag backend config events world (start 7 [])).left
    ≡ (Fate.is_uploaded, some 1, true ∷ true ∷ [])
      ∷ (Fate.is_spooled, some 1, true ∷ [])
      ∷ (Fate.is_spooled, none, false ∷ [])
      ∷ []
unfolding live flag_size start encode_batch
fates = refl
