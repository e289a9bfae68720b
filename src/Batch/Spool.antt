-- ===== src/Batch/Spool.antt =====
-- crates/obs-sink-batch/src/spool.rs. A spool file is its bytes; the directory is the list of its
-- files, oldest first, as `collect_entries` and the sort by time give it.
pub mod RoundTrip
pub mod Evict
use obs.Prelude.{
  ℕ, zero, suc, ◌+◌, ◌-◌, ◌*◌, ◌^◌, Bool, true, false, Option, none, some, List, [], ◌∷◌, ◌++◌,
  Bytes, Text, ltb, leb, text_eq, if◌then◌else◌, length, drop, Result, ok, err, ◌>>=◌,
}
use obs.Wire.Message.{Message}
use obs.Wire.Frame.{FrameError, encode_into_with_cache, decode_frame}

pub data SpoolError : Type 0 where
  envelope_too_large : ℕ → SpoolError
  decode : SpoolError

-- `u32::MAX`
abbrev pub u32_max : ℕ
u32_max = 2 ^ 32 - 1

-- The frame limit of the reader, `1 << 30`.
abbrev pub max_frame : ℕ
max_frame = 2 ^ 30

module _ {E : Type 0} (m : Message E) where
  -- The bytes that `write` puts into a new file.
  unfoldable pub encode_batch_loop : List E → Bytes → Result SpoolError Bytes
  encode_batch_loop [] buf = ok buf
  encode_batch_loop (env ∷ envs) buf =
      if ltb u32_max (m.compute_size env)
      then err (envelope_too_large (m.compute_size env))
      else encode_batch_loop envs (encode_into_with_cache m env buf)

  unfoldable pub encode_batch : List E → Result SpoolError Bytes
  unfolding encode_batch_loop
  encode_batch envs = encode_batch_loop envs []

  -- The loop of `read_file` over what is behind `offset`; `none` is no Rust value: the fuel ran out.
  unfoldable pub read_loop : ℕ → Bytes → List E → Option (Result SpoolError (List E))
  read_loop fuel [] envelopes = some (ok envelopes)
  read_loop zero (c ∷ cs) envelopes = none
  read_loop (suc fuel) (c ∷ cs) envelopes = elim (decode_frame m (c ∷ cs) max_frame) [
    | err e ↦ some (err decode)
    | ok none ↦ some (err decode)
    | ok (some (env, consumed)) ↦ read_loop fuel (drop consumed (c ∷ cs)) (envelopes ++ (env ∷ []))
  ]

  unfoldable pub read_file : Bytes → Option (Result SpoolError (List E))
  unfolding read_loop
  read_file buf = read_loop (length buf) buf []

-- A file of the spool, by its name and its bytes.
pub record File : Type 0 where
  pub path : Text
  pub content : Bytes

-- How the file operations of one eviction turn out: whether `measure_dir` and `collect_entries` succeed,
-- the bytes that are in the tree besides the spool files (those in `failed/`), and, by the path of a
-- file, whether the measure has its size, whether its size is read again, and whether it is removed.
pub record DirAnswers : Type 0 where
  pub can_measure : Bool
  pub can_collect : Bool
  pub other_bytes : ℕ
  pub is_measured : Text → Bool
  pub can_stat : Text → Bool
  pub can_unlink : Text → Bool

-- `measure_dir`, over the spool files.
unfoldable pub measure_files : (Text → Bool) → List File → ℕ
measure_files is_measured [] = 0
measure_files is_measured (f ∷ fs) =
    (if is_measured f.path then length f.content else 0) + measure_files is_measured fs

-- A measure that fails counts as 0.
unfoldable pub size_bytes : DirAnswers → List File → ℕ
unfolding measure_files
size_bytes a files = if a.can_measure then a.other_bytes + measure_files a.is_measured files else 0

-- The loop over the files, oldest first: `size` is what the loop takes to be left on disk. A removal
-- that fails is ignored, and its bytes count as gone.
unfoldable pub evict_loop : DirAnswers → ℕ → ℕ → List File → List File
evict_loop a max_bytes size [] = []
evict_loop a max_bytes size (f ∷ fs) =
    let size' = if a.can_stat f.path then size - length f.content else size in
    let rest = evict_loop a max_bytes size' fs in
    if leb size max_bytes then f ∷ fs else if a.can_unlink f.path then rest else f ∷ rest

-- The error of `collect_entries` is the one that `write` ignores.
unfoldable pub evict_to_cap : DirAnswers → ℕ → List File → List File
unfolding evict_loop size_bytes
evict_to_cap a max_bytes files =
    let size = size_bytes a files in
    if leb size max_bytes
    then files
    else if a.can_collect
    then evict_loop a max_bytes size files
    else files

-- `write`: the new file is the newest, and the cap is enforced behind it.
unfoldable pub write :
    {E : Type 0}
    → Message E
    → DirAnswers
    → ℕ
    → Text
    → List E
    → List File
    → Result SpoolError (List File)
write m a max_bytes path envelopes files = do
  buf ← encode_batch m envelopes
  ok (evict_to_cap a max_bytes (files ++ (record { path = path; content = buf } ∷ [])))

-- `remove`, of a file that may be gone already.
unfoldable pub remove : Text → List File → List File
remove path [] = []
remove path (f ∷ fs) = if text_eq f.path path then fs else f ∷ remove path fs
