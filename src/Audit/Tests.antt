-- ===== src/Audit/Tests.antt =====
-- Runs of the audit spool, and the theorems on it at concrete inputs.
use obs.Prelude.{
  ℕ, ◌≤◌, ◌≡◌, ◌≢◌, refl, ◌⊎◌, Bool, true, none, some, List, [], ◌∷◌, ◌++◌, map, Result, ok, arith,
}
use obs.Wire.Flag.{flag_bytes, flag, flag-IsCodec}
use obs.Audit.Crc.{crc32c}
use obs.Audit.Append.{
  per_batch, Writer, Io, ◌>>◌, open_with_fsync, append, to_le_bytes, is_full, check, write_bin,
  write_crc_file, count_record, apply_policy, should_fsync,
}
use obs.Audit.Append.Policy.{
  bins, crcs, bin_record, Holds, IsValid, append-IsValid, open_with_fsync-IsValid,
}
use obs.Audit.Recover.{RecoveryReport, recover_one}
use obs.Audit.Recover.Crash.{consume_all, whole, torn}
use obs.Audit.Recover.Survive.{after_crash, recover_after_crash}
use obs.Audit.Recover.Damage.{recover_one_ends, recover_one_damaged}

-- File operations that succeed, and a consumer that keeps all envelopes.
abbrev all_well : Io
all_well = record {
  write_len = none;
  write_buf = none;
  flush_bin = true;
  write_crc = none;
  flush_crc = true;
  sync_bin = true;
  sync_crc = true;
}

keep : List Bool → Bool → Result ℕ (List Bool)
keep seen env = ok (seen ++ (env ∷ []))

abbrev fresh : Writer
fresh = open_with_fsync 1000 per_batch

abbrev first : Writer
first = (append flag true all_well fresh).1

first_run : append flag true all_well fresh ≡ (ok tt, first)
unfolding ◌>>◌ append open_with_fsync is_full check write_bin write_crc_file count_record
    apply_policy should_fsync flag_bytes
first_run = refl

append-IsValid_example :
    IsValid [] (flag_bytes true ∷ []) first ⊎ IsValid (flag_bytes true ∷ []) [] first
append-IsValid_example =
    append-IsValid flag true all_well [] [] (open_with_fsync-IsValid 1000 per_batch) first_run

open_with_fsync-IsValid_example : IsValid [] [] fresh
open_with_fsync-IsValid_example = open_with_fsync-IsValid 1000 per_batch

-- A spool whose first envelope is durable and whose second is not.
abbrev half_synced : Writer
half_synced = record {
  bin = record {
    content = bins (flag_bytes true ∷ flag_bytes true ∷ []);
    durable = bins (flag_bytes true ∷ []);
  };
  bin_open = true;
  crc = record {
    content = crcs (flag_bytes true ∷ flag_bytes true ∷ []);
    durable = crcs (flag_bytes true ∷ []);
  };
  crc_open = true;
  bytes_written = 12;
  max_bytes = 1000;
  pending_records = 1;
  fsync_mode = per_batch;
}

half_synced-Holds : Holds (map flag_bytes (true ∷ [])) (map flag_bytes (true ∷ [])) half_synced
half_synced-Holds = record {
  bin_content = refl;
  crc_content = refl;
  bin_durable = refl;
  crc_durable = refl;
  pending = refl;
}

-- Five of the six bytes of the second record are left.
recover_after_crash_example :
    (recover_one flag keep (after_crash half_synced.bin 5) (some (after_crash half_synced.crc 1)) []
      ≡ some (ok (true ∷ [], record { records = 1; dropped = 1 })))
    × (1 ≤ 1)
unfolding consume_all whole torn keep flag_bytes
recover_after_crash_example =
    recover_after_crash flag flag-IsCodec keep (true ∷ []) (true ∷ []) half_synced 5 1 []
      half_synced-Holds

recover_one_ends_example :
    (out : Result ℕ (List Bool × RecoveryReport)) × (recover_one flag keep
        (9 ∷ 9 ∷ 9 ∷ 9 ∷ 9 ∷ [])
        none
        []
      ≡ some out)
recover_one_ends_example = recover_one_ends flag keep (9 ∷ 9 ∷ 9 ∷ 9 ∷ 9 ∷ []) none []

seven_is_wrong : 7 ≢ crc32c (9 ∷ 1 ∷ [])
unfolding crc32c
seven_is_wrong = λ e. omega (arith, e)

-- The record between two others is damaged.
recover_one_damaged_example :
    recover_one flag keep
      (bins (flag_bytes true ∷ []) ++ (bin_record (9 ∷ 1 ∷ []) ++ bins (flag_bytes true ∷ [])))
      (some (crcs (flag_bytes true ∷ []) ++ (to_le_bytes 7 ++ crcs (flag_bytes true ∷ []))))
      []
    ≡ some (ok (true ∷ true ∷ [], record { records = 2; dropped = 1 }))
unfolding consume_all keep flag_bytes
recover_one_damaged_example =
    recover_one_damaged flag flag-IsCodec keep (true ∷ []) (true ∷ []) (9 ∷ 1 ∷ []) 7 []
      (omega arith) (omega arith) seven_is_wrong
