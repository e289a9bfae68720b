-- ===== src/Audit/Append/Policy.antt =====
-- What a call of `append` leaves in the files, and what of it is durable.
use obs.Prelude.{
  ℕ, ◌+◌, ◌%◌, ◌^◌, ◌<◌, ◌≡◌, refl, sym, ap, ◌∙◌, ◌⊎◌, inl, inr, true, false, Bool-cases, List, [],
  ◌∷◌, append-nil, length-append, ◌++◌, append_assoc, Bytes, length, ok, err, arith,
}
use obs.Wire.Message.{Message}
use obs.Audit.Crc.{crc32c}
use obs.Audit.Append.{
  AuditFsyncMode, spool_full, Writer, Io, fsync_batch_size, to_le_bytes, ◌>>◌, check, write_bin,
  write_crc_file, sync_bin_file, sync_crc_file, count_record, reset_pending, should_fsync,
  fsync_now, apply_policy, is_full, append, open_with_fsync,
}

-- The bytes of one record in the two files.
abbrev pub bin_record : Bytes → Bytes
bin_record buf = to_le_bytes (length buf % 2 ^ 32) ++ buf

abbrev pub crc_record : Bytes → Bytes
crc_record buf = to_le_bytes (crc32c buf)

-- The writer that the calls before the policy leave.
written : Bytes → Writer → Writer
written buf w = record w {
  bin = record {
    content = (w.bin.content ++ to_le_bytes (length buf % 2 ^ 32)) ++ buf;
    durable = w.bin.durable;
  };
  crc = record { content = w.crc.content ++ crc_record buf; durable = w.crc.durable };
  bytes_written = w.bytes_written + (length buf + 4);
  pending_records = w.pending_records + 1;
}

module _ {E : Type 0} (m : Message E) (env : E) (io : Io) (w : Writer) where
  -- A full spool refuses the envelope and is left as it was.
  pub append-full :
      is_full w (length (m.write_to env)) ≡ true → append m env io w ≡ (err spool_full, w)
  unfolding ◌>>◌ append check
  append-full h = rw h refl

  append-written :
      {w' : Writer}
      → append m env io w ≡ (ok tt, w')
      → apply_policy io (written (m.write_to env) w) ≡ (ok tt, w')
  unfolding ◌>>◌ append check write_bin write_crc_file count_record written
  append-written e = ground arith

-- `fsync_now` makes the whole of both files durable.
fsync_now_lem :
    (io : Io) (w : Writer) {w' : Writer}
    → w.bin_open ≡ true
    → w.crc_open ≡ true
    → fsync_now io w ≡ (ok tt, w')
    → w' ≡ record w {
      bin = record { content = w.bin.content; durable = w.bin.content };
      crc = record { content = w.crc.content; durable = w.crc.content };
      pending_records = 0;
    }
unfolding ◌>>◌ fsync_now sync_bin_file sync_crc_file reset_pending
fsync_now_lem io w b c e = ground arith

-- The records of several envelopes, one behind the other.
unfoldable pub bins : List Bytes → Bytes
bins [] = []
bins (buf ∷ bufs) = bin_record buf ++ bins bufs

unfoldable pub crcs : List Bytes → Bytes
crcs [] = []
crcs (buf ∷ bufs) = crc_record buf ++ crcs bufs

bins-snoc :
    (bufs : List Bytes) (buf : Bytes) → bins (bufs ++ (buf ∷ [])) ≡ bins bufs ++ bin_record buf
unfolding bins
bins-snoc [] buf = append-nil _
bins-snoc (b ∷ bufs) buf =
    ap (λ t. bin_record b ++ t) (bins-snoc bufs buf)
    ∙ sym (append_assoc (bin_record b) (bins bufs) (bin_record buf))

crcs-snoc :
    (bufs : List Bytes) (buf : Bytes) → crcs (bufs ++ (buf ∷ [])) ≡ crcs bufs ++ crc_record buf
unfolding crcs
crcs-snoc [] buf = append-nil _
crcs-snoc (b ∷ bufs) buf =
    ap (λ t. crc_record b ++ t) (crcs-snoc bufs buf)
    ∙ sym (append_assoc (crc_record b) (crcs bufs) (crc_record buf))

-- The writer has appended `safe` and then `recent`: both files hold all of these records, and a
-- crash of the host cannot take those of `safe`.
pub record Holds (safe recent : List Bytes) (w : Writer) : Type 0 where
  pub bin_content : w.bin.content ≡ bins (safe ++ recent)
  pub crc_content : w.crc.content ≡ crcs (safe ++ recent)
  pub bin_durable : w.bin.durable ≡ bins safe
  pub crc_durable : w.crc.durable ≡ crcs safe
  pub pending : length recent ≡ w.pending_records

written-Holds :
    (safe recent : List Bytes) (buf : Bytes) {w : Writer}
    → Holds safe recent w
    → Holds safe (recent ++ (buf ∷ [])) (written buf w)
unfolding written
written-Holds safe recent buf {w} h = record {
  bin_content =
      rw (h.bin_content, append_assoc)
        (sym (bins-snoc (safe ++ recent) buf) ∙ ap bins (append_assoc safe recent (buf ∷ [])));
  crc_content =
      rw h.crc_content
        (sym (crcs-snoc (safe ++ recent) buf) ∙ ap crcs (append_assoc safe recent (buf ∷ [])));
  bin_durable = h.bin_durable;
  crc_durable = h.crc_durable;
  pending = omega (arith, length-append recent (buf ∷ []), h.pending);
}

synced-Holds :
    (safe recent : List Bytes) {w : Writer}
    → Holds safe recent w
    → Holds (safe ++ recent) [] (record w {
      bin = record { content = w.bin.content; durable = w.bin.content };
      crc = record { content = w.crc.content; durable = w.crc.content };
      pending_records = 0;
    })
synced-Holds safe recent h = record {
  bin_content = rw append-nil h.bin_content;
  crc_content = rw append-nil h.crc_content;
  bin_durable = h.bin_content;
  crc_durable = h.crc_content;
  pending = refl;
}

open_handles :
    {E : Type 0} (m : Message E) (env : E) (io : Io) (w : Writer) {w' : Writer}
    → append m env io w ≡ (ok tt, w')
    → (w.bin_open ≡ true) × (w.crc_open ≡ true) × (is_full w (length (m.write_to env)) ≡ false)
unfolding ◌>>◌ append check write_bin write_crc_file
open_handles m env io w e = ground arith

-- What a policy allows to be lost.
abbrev pub IsBounded : AuditFsyncMode → ℕ → Type 0
IsBounded AuditFsyncMode.never pending = Unit
IsBounded AuditFsyncMode.per_batch pending = pending < fsync_batch_size
IsBounded AuditFsyncMode.per_record pending = pending ≡ 0

IsBounded-grow :
    (mode : AuditFsyncMode) (pending : ℕ)
    → should_fsync mode (pending + 1) ≡ false
    → IsBounded mode (pending + 1)
unfolding should_fsync
IsBounded-grow AuditFsyncMode.never pending h = tt
IsBounded-grow AuditFsyncMode.per_batch pending h = ground arith
IsBounded-grow AuditFsyncMode.per_record pending h = absurd (cc)

IsBounded-zero : (mode : AuditFsyncMode) → IsBounded mode 0
IsBounded-zero AuditFsyncMode.never = tt
IsBounded-zero AuditFsyncMode.per_batch = omega arith
IsBounded-zero AuditFsyncMode.per_record = refl

-- The writer after some envelopes: what it holds, the counter of bytes, and the policy's bound.
pub record IsValid (safe recent : List Bytes) (w : Writer) : Type 0 where
  pub holds : Holds safe recent w
  pub counted : w.bytes_written ≡ length w.bin.content
  pub bounded : IsBounded w.fsync_mode w.pending_records

-- A fresh spool is valid and empty.
pub open_with_fsync-IsValid :
    (max_bytes : ℕ) (mode : AuditFsyncMode) → IsValid [] [] (open_with_fsync max_bytes mode)
unfolding open_with_fsync bins crcs
open_with_fsync-IsValid max_bytes mode = record {
  holds = record {
    bin_content = refl;
    crc_content = refl;
    bin_durable = refl;
    crc_durable = refl;
    pending = refl;
  };
  counted = refl;
  bounded = IsBounded-zero mode;
}

length-written :
    (buf : Bytes) (w : Writer)
    → w.bytes_written ≡ length w.bin.content
    → (written buf w).bytes_written ≡ length (written buf w).bin.content
unfolding written to_le_bytes
length-written buf w h = omega (
  arith,
  length-append (w.bin.content ++ to_le_bytes (length buf % 2 ^ 32)) buf,
  length-append w.bin.content (to_le_bytes (length buf % 2 ^ 32)),
)

abbrev synced : Writer → Writer
synced w = record w {
  bin = record { content = w.bin.content; durable = w.bin.content };
  crc = record { content = w.crc.content; durable = w.crc.content };
  pending_records = 0;
}

policy_waits :
    (io : Io) (w : Writer) {w' : Writer}
    → should_fsync w.fsync_mode w.pending_records ≡ false
    → apply_policy io w ≡ (ok tt, w')
    → w' ≡ w
unfolding apply_policy
policy_waits io w h e = let h2 = rw (apply_policy, h) at e in cc

policy_syncs :
    (io : Io) (w : Writer) {w' : Writer}
    → should_fsync w.fsync_mode w.pending_records ≡ true
    → w.bin_open ≡ true
    → w.crc_open ≡ true
    → apply_policy io w ≡ (ok tt, w')
    → w' ≡ synced w
unfolding apply_policy
policy_syncs io w h b c e = fsync_now_lem io w b c (rw (apply_policy, h) at e)

written-IsValid :
    (safe recent : List Bytes) (buf : Bytes) {w : Writer}
    → IsValid safe recent w
    → should_fsync w.fsync_mode (w.pending_records + 1) ≡ false
    → IsValid safe (recent ++ (buf ∷ [])) (written buf w)
written-IsValid safe recent buf {w} v wait = record {
  holds = written-Holds safe recent buf v.holds;
  counted = length-written buf w v.counted;
  bounded = unfold written in IsBounded-grow w.fsync_mode w.pending_records wait;
}

synced-IsValid :
    (safe recent : List Bytes) (buf : Bytes) {w : Writer}
    → IsValid safe recent w
    → IsValid (safe ++ (recent ++ (buf ∷ []))) [] (synced (written buf w))
synced-IsValid safe recent buf {w} v = record {
  holds = synced-Holds safe (recent ++ (buf ∷ [])) (written-Holds safe recent buf v.holds);
  counted = length-written buf w v.counted;
  bounded = IsBounded-zero (written buf w).fsync_mode;
}

-- A successful `append` adds the envelope's record behind the others in both files. Either it is
-- among the records that a crash can take, whose number the policy bounds (none of them with
-- `PerRecord`, fewer than 64 with `PerBatch`), or everything has been made durable.
pub append-IsValid :
    {E : Type 0} (m : Message E) (env : E) (io : Io) (safe recent : List Bytes) {w w' : Writer}
    → IsValid safe recent w
    → append m env io w ≡ (ok tt, w')
    → IsValid safe (recent ++ (m.write_to env ∷ [])) w'
      ⊎ IsValid (safe ++ (recent ++ (m.write_to env ∷ []))) [] w'
append-IsValid m env io safe recent {w} {w'} v e =
    let buf = m.write_to env in
    let (bin_open, crc_open, _) = open_handles m env io w e in
    let p = append-written m env io w e in
    elim (Bool-cases (should_fsync w.fsync_mode (w.pending_records + 1))) [
      | inl sync ↦ inr (
          rw
            (policy_syncs io (written buf w) (unfold written in sync) (unfold written in bin_open)
              (unfold written in crc_open) p)
            (synced-IsValid safe recent buf v))
      | inr wait ↦ inl (
          rw (policy_waits io (written buf w) (unfold written in wait) p)
            (written-IsValid safe recent buf v wait))
    ]
