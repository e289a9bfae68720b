-- ===== src/Audit/Recover/Frames.antt =====
-- Records of the two files, as the loop of `recover_one` reads them one by one.
use obs.Prelude.{
  ℕ, zero, suc, ◌+◌, ◌%◌, ◌^◌, ◌<◌, ◌≡◌, refl, Option, some, ◌++◌, Bytes, length, length-append,
  take_exact, drop_exact, Result, ok, err, arith,
}
use obs.Wire.Payload.{from_le_bytes}
use obs.Wire.Message.{Message}
use obs.Audit.Crc.{crc32c, crc32c-lt}
use obs.Audit.Append.{to_le_bytes}
use obs.Audit.Append.Policy.{bin_record, crc_record}
use obs.Audit.Recover.{RecoveryReport, read_sidecar, take_record, recover_loop}

pub from-to_le_bytes : (n : ℕ) → n < 2 ^ 32 → from_le_bytes (to_le_bytes n) ≡ n
unfolding from_le_bytes to_le_bytes
from-to_le_bytes n h = omega arith

-- The CRC file gives the number of the record, and goes on behind it.
pub read_sidecar-crc_record :
    (buf rest : Bytes)
    → read_sidecar (some (crc_record buf ++ rest)) ≡ (some (crc32c buf), some rest)
unfolding read_sidecar to_le_bytes
read_sidecar-crc_record buf rest = ground (arith, from-to_le_bytes (crc32c buf) (crc32c-lt buf))

module _ {S X : Type 0} where
  -- Goes on from the outcome of the records so far.
  abbrev pub continue :
      Result X (S × RecoveryReport)
      → (S → RecoveryReport → Option (Result X (S × RecoveryReport)))
      → Option (Result X (S × RecoveryReport))
  continue (err x) k = some (err x)
  continue (ok (s, r)) k = k s r

  module _ {E : Type 0} (m : Message E) (consume : S → E → Result X S) where
    -- A whole record in front of the bin file is one turn of the loop.
    pub recover_loop-record :
        (fuel : ℕ) (buf rest : Bytes) (crc : Option Bytes) (s : S) (r : RecoveryReport)
        → length buf < 2 ^ 32
        → recover_loop m consume (suc fuel) (bin_record buf ++ rest) crc s r
          ≡ continue
              (take_record m consume buf (read_sidecar crc).0 s r)
              (λ s' r'. recover_loop m consume fuel rest (read_sidecar crc).1 s' r')
    unfolding recover_loop to_le_bytes
    recover_loop-record fuel buf rest crc s r h =
        let len = from-to_le_bytes (length buf % 2 ^ 32) (omega arith) in
        ground (
          arith,
          len,
          length-append buf rest,
          take_exact (length buf) buf rest refl,
          drop_exact (length buf) buf rest refl,
        )

    -- Fewer than four bytes end the loop.
    pub recover_loop-short :
        (fuel : ℕ) (bin : Bytes) (crc : Option Bytes) (s : S) (r : RecoveryReport)
        → length bin < 4
        → recover_loop m consume fuel bin crc s r ≡ some (ok (s, r))
    unfolding recover_loop
    recover_loop-short zero bin crc s r h = ground arith
    recover_loop-short (suc fuel) bin crc s r h = ground arith

    -- A record that ends within its payload is counted as dropped, and ends the loop.
    pub recover_loop-torn :
        (fuel : ℕ) (buf back : Bytes) (crc : Option Bytes) (s : S) (r : RecoveryReport)
        → length buf < 2 ^ 32
        → length back < length buf
        → recover_loop m consume (suc fuel) (to_le_bytes (length buf % 2 ^ 32) ++ back) crc s r
          ≡ some (ok (s, record r { dropped = r.dropped + 1 }))
    unfolding recover_loop to_le_bytes
    recover_loop-torn fuel buf back crc s r h short =
        let len = from-to_le_bytes (length buf % 2 ^ 32) (omega arith) in ground (arith, len)
