-- ===== src/Audit/Append/Limit.antt =====
-- The limit on the bytes of a spool.
use obs.Prelude.{
  ℕ, ◌+◌, ◌-◌, ◌%◌, ◌^◌, ◌≤◌, ◌<◌, ◌≡◌, ◌⊎◌, inl, inr, Bool, true, false, Bool-cases, Option, none,
  some, Bytes, length, Result-cases, err, ltb, ltb→lt, ltb→le, if◌then◌else◌, arith,
}
use obs.Wire.Message.{Message}
use obs.Audit.Crc.{crc32c}
use obs.Audit.Append.{
  AppendError, spool_full, broken_pipe, io_error, Writer, Io, to_le_bytes, M, ◌>>◌, check,
  write_bin, write_crc_file, sync_bin_file, sync_crc_file, count_record, reset_pending,
  should_fsync, fsync_now, apply_policy, is_full, append,
}
use obs.Audit.Append.Policy.{append-full}

is_full-true :
    (w : Writer) (len : ℕ)
    → w.max_bytes < 2 ^ 64 - 1
    → w.max_bytes < w.bytes_written + (len + 4)
    → is_full w len ≡ true
unfolding is_full
is_full-true w len h full = ground arith

-- A step that counts at most `n` bytes, whether it fails or not.
record Grows (n : ℕ) (step : M) : Type 0 where
  grows : (w : Writer) → (step w).1.bytes_written ≤ w.bytes_written + n

Grows-seq :
    (a b : ℕ) {first rest : M} → Grows a first → Grows b rest → Grows (a + b) (first >> rest)
unfolding ◌>>◌
Grows-seq a b {first = f} {rest = r} ha hb = record {
  grows = λ w. elim (Result-cases (f w).0) [
    | inl (done, e) ↦ rw (◌>>◌, e) (omega (arith, ha.grows w, hb.grows (f w).1))
    | inr (x, e) ↦ rw (◌>>◌, e) (omega (arith, ha.grows w))
  ];
}

-- A step that counts nothing may stand in front.
Grows-quiet : (n : ℕ) {first rest : M} → Grows 0 first → Grows n rest → Grows n (first >> rest)
Grows-quiet n {first = f} {rest = r} ha hb =
    let zero_more : 0 + n ≡ n = omega arith in
    rw zero_more at (Grows-seq 0 n {first = f} {rest = r} ha hb)

check-Grows : (b : Bool) (e : AppendError) → Grows 0 (check b e)
unfolding check
check-Grows true e = record { grows = λ w. omega arith }
check-Grows false e = record { grows = λ w. omega arith }

write_bin-Grows : (o : Option ℕ) (bs : Bytes) → Grows 0 (write_bin o bs)
unfolding write_bin
write_bin-Grows none bs = record { grows = λ w. omega arith }
write_bin-Grows (some k) bs = record { grows = λ w. omega arith }

write_crc_file-Grows : (o : Option ℕ) (bs : Bytes) → Grows 0 (write_crc_file o bs)
unfolding write_crc_file
write_crc_file-Grows none bs = record { grows = λ w. omega arith }
write_crc_file-Grows (some k) bs = record { grows = λ w. omega arith }

sync_bin_file-Grows : (b : Bool) → Grows 0 (sync_bin_file b)
unfolding sync_bin_file
sync_bin_file-Grows b = record {
  grows = λ w. elim (Bool-cases w.bin_open) [
    | inl is_open ↦ elim (Bool-cases b) [
      | inl done ↦ rw (sync_bin_file, is_open, done) (omega arith)
      | inr lost ↦ rw (sync_bin_file, is_open, lost) (omega arith)
    ]
    | inr closed ↦ rw (sync_bin_file, closed) (omega arith)
  ];
}

sync_crc_file-Grows : (b : Bool) → Grows 0 (sync_crc_file b)
unfolding sync_crc_file
sync_crc_file-Grows b = record {
  grows = λ w. elim (Bool-cases w.crc_open) [
    | inl is_open ↦ elim (Bool-cases b) [
      | inl done ↦ rw (sync_crc_file, is_open, done) (omega arith)
      | inr lost ↦ rw (sync_crc_file, is_open, lost) (omega arith)
    ]
    | inr closed ↦ rw (sync_crc_file, closed) (omega arith)
  ];
}

reset_pending-Grows : Grows 0 reset_pending
unfolding reset_pending
reset_pending-Grows = record { grows = λ w. omega arith }

fsync_now-Grows : (io : Io) → Grows 0 (fsync_now io)
unfolding fsync_now
fsync_now-Grows io =
    Grows-quiet 0 (sync_bin_file-Grows io.sync_bin)
      (Grows-quiet 0 (sync_crc_file-Grows io.sync_crc) reset_pending-Grows)

apply_policy-Grows : (io : Io) → Grows 0 (apply_policy io)
unfolding apply_policy
apply_policy-Grows io = record {
  grows = λ w. elim (Bool-cases (should_fsync w.fsync_mode w.pending_records)) [
    | inl sync ↦ rw (apply_policy, sync) ((fsync_now-Grows io).grows w)
    | inr wait ↦ rw (apply_policy, wait) (omega arith)
  ];
}

count_record-Grows : (len : ℕ) → Grows (len + 4) (count_record len)
unfolding count_record
count_record-Grows len = record { grows = λ w. omega arith }

append_grows :
    {E : Type 0} (m : Message E) (env : E) (io : Io) (w : Writer)
    → (append m env io w).1.bytes_written ≤ w.bytes_written + (length (m.write_to env) + 4)
unfolding append
append_grows m env io w =
    let buf = m.write_to env in
    let n = length buf + 4 in
    let counted = Grows-seq n 0 (count_record-Grows (length buf)) (apply_policy-Grows io) in
    let steps =
      Grows-quiet (n + 0) (check-Grows (if is_full w (length buf) then false else true) spool_full)
        (Grows-quiet (n + 0) (check-Grows w.bin_open broken_pipe) (
          Grows-quiet (n + 0) (write_bin-Grows io.write_len (to_le_bytes (length buf % 2 ^ 32))) (
            Grows-quiet (n + 0) (write_bin-Grows io.write_buf buf) (
              Grows-quiet (n + 0) (check-Grows io.flush_bin io_error) (
                Grows-quiet (n + 0) (check-Grows w.crc_open broken_pipe) (
                  Grows-quiet (n + 0) (write_crc_file-Grows io.write_crc (to_le_bytes (crc32c buf)))
                    (Grows-quiet (n + 0) (check-Grows io.flush_crc io_error) counted))))))) in
    let bound : (append m env io w).1.bytes_written ≤ w.bytes_written + (n + 0) = steps.grows w in
    omega (arith, bound)

-- A spool that has no room for an envelope refuses it and is left as it was; one that has room stays
-- within its limit, however the file operations turn out. The limit is below the largest u64.
pub append_limit :
    {E : Type 0} (m : Message E) (env : E) (io : Io) (w : Writer)
    → w.max_bytes < 2 ^ 64 - 1
    → (w.max_bytes < w.bytes_written + (length (m.write_to env) + 4))
        × (append m env io w ≡ (err spool_full, w))
      ⊎ (w.bytes_written + (length (m.write_to env) + 4) ≤ w.max_bytes)
        × ((append m env io w).1.bytes_written ≤ w.max_bytes)
append_limit m env io w h =
    elim (Bool-cases (ltb w.max_bytes (w.bytes_written + (length (m.write_to env) + 4)))) [
      | inl full ↦
          let more = ltb→lt _ _ full in
          inl (more, append-full m env io w (is_full-true w (length (m.write_to env)) h more))
      | inr room ↦
          let fits = ltb→le _ _ room in inr (fits, omega (arith, fits, append_grows m env io w))
    ]
