-- ===== src/Batch/Worker/State.antt =====
-- The state of the worker of crates/obs-sink-batch/src/sink.rs, its configuration and its backend.
use obs.Prelude.{
  ℕ, ◌+◌, ◌^◌, ◌%◌, ◌≡◌, Bool, true, false, Option, none, some, List, [], ◌∷◌, ◌++◌, Bytes, Text,
  if◌then◌else◌, take, Result,
}
use obs.Propagator.{to_hex}
use obs.Batch.Spool.{File, DirAnswers}

-- The trait `BatchBackend` with the `Hash + Eq + Debug` of its keys, and the third-party hash.
pub record BatchBackend (E K Body : Type 0) : Type 0 where
  pub partition_key : E → Option K
  pub describe_key : K → Text × Text
  pub encode_batch : K → List E → Result Text Body
  pub key_eq : K → K → Bool
  pub debug_text : K → Text
  pub blake3 : Bytes → Bytes

-- The documented behaviour of `Eq`.
pub record IsKeyed {E K Body : Type 0} (b : BatchBackend E K Body) : Type 0 where
  pub key_eq_refl : (k : K) → b.key_eq k k ≡ true
  pub key_eq→eq : (j k : K) → b.key_eq j k ≡ true → j ≡ k

pub data JitterMode : Type 0 where
  no_jitter full_jitter half_jitter : JitterMode

-- `computed_ms` is the f64 product with its cap, for each attempt. Times are in one unit.
pub record BatchConfig : Type 0 where
  pub max_events : ℕ
  pub max_bytes : ℕ
  pub max_age : ℕ
  pub max_attempts : ℕ
  pub computed_ms : ℕ → ℕ
  pub jitter : JitterMode
  pub spool_max_bytes : ℕ
  pub escalate_after_ms : ℕ

pub data UploadError : Type 0 where
  retry fatal : Text → UploadError

-- What the world answers while the worker is at one event: the clock, the backend, the name of a
-- new file, and which of the file operations succeed.
pub record World (K Body : Type 0) : Type 0 where
  pub now : ℕ
  pub upload : K → Body → ℕ → Result UploadError (Unit {0})
  pub file_name : Text → Text
  pub disk_ok : Text → Bool
  pub dir : DirAnswers
  pub can_list : Bool
  pub can_remove : Text → Bool
  pub can_move : Text → Bool

pub record WorkerCounters : Type 0 where
  pub partition_evicted : ℕ
  pub uploads : ℕ
  pub retries : ℕ
  pub spooled : ℕ
  pub recovered : ℕ
  pub escalated : ℕ
  pub envelope_too_large : ℕ

-- `fetch_add(1)` on a u64.
unfoldable pub fetch_add : ℕ → ℕ
fetch_add n = (n + 1) % 2 ^ 64

-- The texts of reasons, before they are formatted.
pub data Reason : Type 0 where
  no_partition_key shutdown_drain retries_exhausted spool_list_failed : Reason
  encode upload : Text → Reason
  spool_write_failed : Reason → Reason

-- The self-events of the worker, with the texts and numbers that it gives them.
pub data SelfEvent : Type 0 where
  too_large : ℕ → SelfEvent
  partition_overflow : Text → ℕ → ℕ → SelfEvent
  failed : Text → Text → ℕ → Reason → SelfEvent
  uploaded : Text → Text → ℕ → ℕ → ℕ → SelfEvent
  retried : Text → Text → ℕ → Text → SelfEvent
  spooled : Text → Text → ℕ → ℕ → SelfEvent
  recovered : Text → ℕ → SelfEvent
  escalated : Text → ℕ → Reason → SelfEvent

-- What became of envelopes that have left their partition.
pub data Fate : Type 0 where
  is_uploaded is_spooled is_lost is_evicted : Fate

pub record Partition (E K : Type 0) : Type 0 where
  pub key : Option K
  pub key_hex : Text
  pub envelopes : List E
  pub bytes : ℕ
  pub opened : ℕ

-- `partitions` lists the values of the map, each with its key. `left` is a history that nothing of
-- the code reads: which envelopes left which partition, and how.
pub record Worker (E K : Type 0) : Type 0 where
  pub partitions : List (Partition E K)
  pub overflow_reported : List ℕ
  pub counters : WorkerCounters
  pub files : List File
  pub failed_files : List File
  pub events : List SelfEvent
  pub rng_state : ℕ
  pub left : List (Fate × Option K × List E)

module _ {E K Body : Type 0} (b : BatchBackend E K Body) where
  unfoldable pub opt_eq : Option K → Option K → Bool
  opt_eq none none = true
  opt_eq none (some k) = false
  opt_eq (some j) none = false
  opt_eq (some j) (some k) = b.key_eq j k

  unfoldable pub find : Option K → List (Partition E K) → Option (Partition E K)
  unfolding opt_eq
  find k [] = none
  find k (p ∷ ps) = let rest = find k ps in if opt_eq p.key k then some p else rest

  unfoldable pub delete : Option K → List (Partition E K) → List (Partition E K)
  unfolding opt_eq
  delete k [] = []
  delete k (p ∷ ps) = let rest = delete k ps in if opt_eq p.key k then rest else p ∷ rest

  unfoldable pub partition_hex : Option K → Text
  unfolding to_hex
  partition_hex none = b'd' ∷ b'e' ∷ b'f' ∷ b'a' ∷ b'u' ∷ b'l' ∷ b't' ∷ []
  partition_hex (some k) = to_hex (take 8 (b.blake3 (b.debug_text k)))

  unfoldable pub described : Option K → Text × Text
  described none = ([], [])
  described (some k) = b.describe_key k

unfoldable pub label_of : Text → Text → Text
label_of key_hex [] = key_hex
label_of key_hex (c ∷ cs) = c ∷ cs

module _ {E K : Type 0} where
  unfoldable pub emit : SelfEvent → Worker E K → Worker E K
  emit event w = record w { events = w.events ++ (event ∷ []) }

  unfoldable pub leave : Fate → Option K → List E → Worker E K → Worker E K
  leave fate key envs w = record w { left = w.left ++ ((fate, key, envs) ∷ []) }

  unfoldable pub clear_reported : Worker E K → Worker E K
  clear_reported w = record w { overflow_reported = [] }
