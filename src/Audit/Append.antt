-- ===== src/Audit/Append.antt =====
-- The writer of crates/obs-core/src/audit_spool.rs, over files with what the disk has acknowledged.
pub mod Policy
pub mod Limit
use obs.Prelude.{
  ℕ, zero, suc, ◌+◌, ◌-◌, ◌*◌, ◌/◌, ◌%◌, ◌^◌, min, Bool, true, false, Option, none, some, List, [],
  ◌∷◌, ◌++◌, Bytes, ltb, leb, if◌then◌else◌, length, take, Result, ok, err,
}
use obs.Wire.Message.{Message}
use obs.Audit.Crc.{crc32c}

pub data AuditFsyncMode : Type 0 where
  never per_batch per_record : AuditFsyncMode

-- The errors of `append`: the spool is full, a file was closed, or a file operation failed.
pub data AppendError : Type 0 where
  spool_full broken_pipe io_error : AppendError

-- A file: what was written to it, and how much of that survives a crash of the host.
pub record File : Type 0 where
  pub content : Bytes
  pub durable : Bytes

-- `SpoolWriter` with its `SpoolInner`, less the paths; a closed handle is `false`.
pub record Writer : Type 0 where
  pub bin : File
  pub bin_open : Bool
  pub crc : File
  pub crc_open : Bool
  pub bytes_written : ℕ
  pub max_bytes : ℕ
  pub pending_records : ℕ
  pub fsync_mode : AuditFsyncMode

-- How the file operations of one call turn out: a `write_all` succeeds, or fails after some bytes.
pub record Io : Type 0 where
  pub write_len : Option ℕ
  pub write_buf : Option ℕ
  pub flush_bin : Bool
  pub write_crc : Option ℕ
  pub flush_crc : Bool
  pub sync_bin : Bool
  pub sync_crc : Bool

-- `FSYNC_BATCH_SIZE`
abbrev pub fsync_batch_size : ℕ
fsync_batch_size = 64

-- `to_le_bytes` of a u32
unfoldable pub to_le_bytes : ℕ → Bytes
to_le_bytes n = (n % 256) ∷ (n / 2 ^ 8 % 256) ∷ (n / 2 ^ 16 % 256) ∷ (n / 2 ^ 24 % 256) ∷ []

-- `Self::open_with_fsync`, once the directory and the files could be made.
unfoldable pub open_with_fsync : ℕ → AuditFsyncMode → Writer
open_with_fsync max_bytes mode = record {
  bin = record { content = []; durable = [] };
  bin_open = true;
  crc = record { content = []; durable = [] };
  crc_open = true;
  bytes_written = 0;
  max_bytes = max_bytes;
  pending_records = 0;
  fsync_mode = mode;
}

-- A fallible step over the writer; what a failed step has done by then stays done.
abbrev pub M : Type 0
M = Writer → Result AppendError (Unit {0}) × Writer

infixl 5 ◌>>◌
unfoldable pub ◌>>◌ : M → M → M
◌>>◌ m k w = let (r, w') = m w in elim r [ ok _ ↦ k w' | err e ↦ (err e, w') ]

unfoldable pub check : Bool → AppendError → M
check true e w = (ok tt, w)
check false e w = (err e, w)

unfoldable pub write_bin : Option ℕ → Bytes → M
write_bin none bs w =
    (ok tt, record w { bin = record { content = w.bin.content ++ bs; durable = w.bin.durable } })
write_bin (some k) bs w = (
  err io_error,
  record w { bin = record { content = w.bin.content ++ take k bs; durable = w.bin.durable } },
)

unfoldable pub write_crc_file : Option ℕ → Bytes → M
write_crc_file none bs w =
    (ok tt, record w { crc = record { content = w.crc.content ++ bs; durable = w.crc.durable } })
write_crc_file (some k) bs w = (
  err io_error,
  record w { crc = record { content = w.crc.content ++ take k bs; durable = w.crc.durable } },
)

-- `bin.sync_data()?` and `crc.sync_data()?` on the handles that are open.
unfoldable pub sync_bin_file : Bool → M
sync_bin_file done w =
    if w.bin_open
    then (if done
        then (ok tt, record w { bin = record { content = w.bin.content; durable = w.bin.content } })
        else (err io_error, w))
    else (ok tt, w)

unfoldable pub sync_crc_file : Bool → M
sync_crc_file done w =
    if w.crc_open
    then (if done
        then (ok tt, record w { crc = record { content = w.crc.content; durable = w.crc.content } })
        else (err io_error, w))
    else (ok tt, w)

unfoldable pub count_record : ℕ → M
count_record len w = (
  ok tt,
  record w { bytes_written = w.bytes_written + (len + 4); pending_records = w.pending_records + 1 },
)

unfoldable pub reset_pending : M
reset_pending w = (ok tt, record w { pending_records = 0 })

unfoldable pub should_fsync : AuditFsyncMode → ℕ → Bool
should_fsync AuditFsyncMode.never pending = false
should_fsync AuditFsyncMode.per_record pending = true
should_fsync AuditFsyncMode.per_batch pending = leb fsync_batch_size pending

-- `fsync_now`
unfoldable pub fsync_now : Io → M
unfolding ◌>>◌ sync_bin_file sync_crc_file reset_pending
fsync_now io = do sync_bin_file io.sync_bin; sync_crc_file io.sync_crc; reset_pending

-- The last part of `append`: the same calls, if the policy asks for them.
unfoldable pub apply_policy : Io → M
apply_policy io w =
    if should_fsync w.fsync_mode w.pending_records then fsync_now io w else (ok tt, w)

-- `bytes_written.saturating_add(buf.len() as u64 + 4) > max_bytes`, as u64.
unfoldable pub is_full : Writer → ℕ → Bool
is_full w len = ltb w.max_bytes (min (w.bytes_written + (len + 4)) (2 ^ 64 - 1))

module _ {E : Type 0} (m : Message E) where
  -- `append`
  unfoldable pub append : E → Io → M
  unfolding ◌>>◌ check write_bin write_crc_file count_record
  append env io w =
      let buf = m.write_to env in
      (do
        check (if is_full w (length buf) then false else true) spool_full
        check w.bin_open broken_pipe
        write_bin io.write_len (to_le_bytes (length buf % 2 ^ 32))
        write_bin io.write_buf buf
        check io.flush_bin io_error
        check w.crc_open broken_pipe
        write_crc_file io.write_crc (to_le_bytes (crc32c buf))
        check io.flush_crc io_error
        count_record (length buf)
        apply_policy io)
        w

-- `close` drops the handles and leaves the files.
unfoldable pub close : Writer → Writer
close w = record w { bin_open = false; crc_open = false }
