-- ===== src/Audit/Recover.antt =====
-- The reader of crates/obs-core/src/audit_spool.rs: records are checked against the CRC file and given
-- to a consumer.
pub mod Frames
pub mod Crash
pub mod Survive
pub mod Damage
use obs.Prelude.{
  ℕ, zero, suc, ◌+◌, ◌-◌, ◌*◌, ◌^◌, Bool, true, false, Option, none, some, List, [], ◌∷◌, Bytes,
  ltb, ◌==◌, if◌then◌else◌, length, take, drop, Result, ok, err,
}
use obs.Wire.Payload.{from_le_bytes}
use obs.Wire.Message.{Message}
use obs.Audit.Crc.{crc32c}

-- `RecoveryReport`, less the path.
pub record RecoveryReport : Type 0 where
  pub records : ℕ
  pub dropped : ℕ

-- The next number of the CRC file and what is left of it; `none` for a file that is not there. A
-- number that cannot be read whole is none, and leaves nothing to read.
unfoldable pub read_sidecar : Option Bytes → Option ℕ × Option Bytes
read_sidecar none = (none, none)
read_sidecar (some c) =
    if ltb (length c) 4 then (none, some []) else (some (from_le_bytes (take 4 c)), some (drop 4 c))

-- `if let Some(expected) = sidecar && expected != actual`
unfoldable pub mismatch : Option ℕ → ℕ → Bool
mismatch none actual = false
mismatch (some expected) actual = if expected == actual then false else true

-- `consume(env)`, with the consumer's own state and error.
module _ {E S X : Type 0} (m : Message E) (consume : S → E → Result X S) where
  -- The outcome of one record: the consumer's state and the report so far, or its error.
  unfoldable pub take_record : Bytes → Option ℕ → S → RecoveryReport → Result X (S × RecoveryReport)
  unfolding mismatch
  take_record bytes sidecar s r =
      if mismatch sidecar (crc32c bytes)
      then ok (s, record r { dropped = r.dropped + 1 })
      else elim (m.decode_from_slice bytes) [
        | none ↦ ok (s, record r { dropped = r.dropped + 1 })
        | some env ↦ elim (consume s env) [
          | err x ↦ err x
          | ok s' ↦ ok (s', record r { records = r.records + 1 })
        ]
      ]

  -- The loop of `recover_one`; `none` is no Rust value: the fuel ran out.
  unfoldable pub recover_loop :
      ℕ → Bytes → Option Bytes → S → RecoveryReport → Option (Result X (S × RecoveryReport))
  recover_loop zero bin crc s r = if ltb (length bin) 4 then some (ok (s, r)) else none
  recover_loop (suc fuel) bin crc s r =
      let len = from_le_bytes (take 4 bin) in
      let rest = drop 4 bin in
      let (sidecar, crc') = read_sidecar crc in
      elim (ltb (length bin) 4) [
        | true ↦ some (ok (s, r))
        | false ↦ elim (ltb (length rest) len) [
          | true ↦ some (ok (s, record r { dropped = r.dropped + 1 }))
          | false ↦ elim (take_record (take len rest) sidecar s r) [
            | err x ↦ some (err x)
            | ok (s', r') ↦ recover_loop fuel (drop len rest) crc' s' r'
          ]
        ]
      ]

  unfoldable pub recover_one : Bytes → Option Bytes → S → Option (Result X (S × RecoveryReport))
  unfolding recover_loop take_record read_sidecar
  recover_one bin crc s = recover_loop (length bin) bin crc s (record { records = 0; dropped = 0 })
