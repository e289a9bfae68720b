-- ===== src/Audit/Recover/Damage.antt =====
-- A damaged record among sound ones, and the end of the loop of `recover_one` on any files.
use obs.Prelude.{
  ℕ, zero, suc, ◌+◌, ◌-◌, ◌^◌, ◌≤◌, ◌<◌, ◌≡◌, ◌≢◌, refl, ◌∙◌, Bool-cases, Option, some, List, [],
  ◌∷◌, ◌++◌, append_assoc, Bytes, ltb→le, ltb, length, take, drop, length-append, length-drop,
  Result, Result-cases, ok, err, arith, map, inl, inr,
}
use obs.Wire.Payload.{from_le_bytes}
use obs.Wire.Message.{Message, IsCodec}
use obs.Audit.Crc.{crc32c}
use obs.Audit.Append.{to_le_bytes}
use obs.Audit.Append.Policy.{bin_record, crc_record, bins, crcs}
use obs.Audit.Recover.{
  RecoveryReport, read_sidecar, mismatch, take_record, recover_loop, recover_one,
}
use obs.Audit.Recover.Frames.{
  continue, recover_loop-record, read_sidecar-crc_record, from-to_le_bytes,
}
use obs.Audit.Recover.Crash.{consume_all, write_to-lt, length-bin_record, take_record-right}
use obs.Audit.Recover.Survive.{no_records, recover_loop_all}

continue_cong :
    {S X : Type 0} (o : Result X (S × RecoveryReport))
    (k k' : S → RecoveryReport → Option (Result X (S × RecoveryReport)))
    → ((s : S) (r : RecoveryReport) → k s r ≡ k' s r)
    → continue o k ≡ continue o k'
continue_cong (err x) k k' h = refl
continue_cong (ok (s, r)) k k' h = h s r

read_sidecar-number :
    (c : ℕ) (rest : Bytes)
    → c < 2 ^ 32
    → read_sidecar (some (to_le_bytes c ++ rest)) ≡ (some c, some rest)
unfolding read_sidecar to_le_bytes
read_sidecar-number c rest h = ground (arith, from-to_le_bytes c h)

module _ {E S X : Type 0} (m : Message E) (consume : S → E → Result X S) where
  -- The record is dropped if its number is another one.
  take_record-mismatch :
      (bad : Bytes) (c : ℕ) (s : S) (r : RecoveryReport)
      → c ≢ crc32c bad
      → take_record m consume bad (some c) s r ≡ ok (s, record r { dropped = r.dropped + 1 })
  unfolding take_record mismatch
  take_record-mismatch bad c s r h = ground arith

  recover_loop_ends :
      (fuel : ℕ) (bin : Bytes) (crc : Option Bytes) (s : S) (r : RecoveryReport)
      → length bin ≤ fuel
      → (out : Result X (S × RecoveryReport)) × (recover_loop m consume fuel bin crc s r ≡ some out)
  unfolding recover_loop
  recover_loop_ends zero bin crc s r h = (ok (s, r), ground arith)
  recover_loop_ends (suc fuel) bin crc s r h =
      let len = from_le_bytes (take 4 bin) in
      let rest = drop 4 bin in
      let out = take_record m consume (take len rest) (read_sidecar crc).0 s r in
      elim (Bool-cases (ltb (length bin) 4)) [
        | inl short ↦ (ok (s, r), ground (arith, short))
        | inr header ↦ elim (Bool-cases (ltb (length rest) len)) [
          | inl partial ↦
              (ok (s, record r { dropped = r.dropped + 1 }), ground (arith, header, partial))
          | inr full ↦ elim (Result-cases out) [
            | inr (x, e) ↦ (err x, ground (arith, header, full, e))
            | inl ((s', r'), e) ↦
                let bound : length (drop len rest) ≤ fuel =
                  omega (
                    arith,
                    length-drop len rest,
                    length-drop 4 bin,
                    ltb→le (length bin) 4 header,
                  ) in
                let (end, q) =
                  recover_loop_ends fuel (drop len rest) (read_sidecar crc).1 s' r' bound in
                (end, rw (recover_loop, header, full, e) q)
          ]
        ]
      ]

  -- `recover_one` ends on any files, with a report or with the error of the consumer.
  pub recover_one_ends :
      (bin : Bytes) (crc : Option Bytes) (s : S)
      → (out : Result X (S × RecoveryReport)) × (recover_one m consume bin crc s ≡ some out)
  unfolding recover_one
  recover_one_ends bin crc s = recover_loop_ends (length bin) bin crc s no_records (omega arith)

module _ {E S X : Type 0} (m : Message E) (codec : IsCodec m) (consume : S → E → Result X S) where
  -- The loop reads sound records in front of anything.
  recover_loop_sound :
      (fuel : ℕ) (envs : List E) (rest crest : Bytes) (s : S) (r : RecoveryReport)
      → recover_loop m consume
          (length envs + fuel)
          (bins (map m.write_to envs) ++ rest)
          (some (crcs (map m.write_to envs) ++ crest))
          s
          r
        ≡ continue
            (consume_all m consume envs s r)
            (λ s' r'. recover_loop m consume fuel rest (some crest) s' r')
  unfolding bins crcs consume_all
  recover_loop_sound fuel [] rest crest s r = let n : 0 + fuel ≡ fuel = omega arith in rw n refl
  recover_loop_sound fuel (env ∷ envs) rest crest s r =
      let buf = m.write_to env in
      let n : suc (length envs) + fuel ≡ suc (length envs + fuel) = omega arith in
      let a = bins (map m.write_to envs) ++ rest in
      let b = crcs (map m.write_to envs) ++ crest in
      rw
        (
          n,
          append_assoc (bin_record buf),
          append_assoc (crc_record buf),
          recover_loop-record m consume (length envs + fuel) buf a (some (crc_record buf ++ b)) s r
              (write_to-lt m codec consume env),
          read_sidecar-crc_record buf b,
          take_record-right m codec consume env (some (crc32c buf)) s r (inr refl),
        )
        (elim (Result-cases (consume s env)) [
          | inl (s', e) ↦
              rw (consume_all, e)
                (recover_loop_sound fuel envs rest crest s' (record r { records = r.records + 1 }))
          | inr (x, e) ↦ rw (consume_all, e) refl
        ])

  recover_loop-damaged :
      (fuel : ℕ) (back : List E) (bad : Bytes) (c : ℕ) (s : S) (r : RecoveryReport)
      → length bad < 2 ^ 32
      → c < 2 ^ 32
      → c ≢ crc32c bad
      → length (bins (map m.write_to back)) ≤ fuel
      → recover_loop m consume
          (suc fuel)
          (bin_record bad ++ bins (map m.write_to back))
          (some (to_le_bytes c ++ crcs (map m.write_to back)))
          s
          r
        ≡ some (consume_all m consume back s (record r { dropped = r.dropped + 1 }))
  recover_loop-damaged fuel back bad c s r len num wrong enough =
      let crest = crcs (map m.write_to back) in
      rw
        (
          recover_loop-record m consume fuel bad (bins (map m.write_to back))
              (some (to_le_bytes c ++ crest)) s r len,
          read_sidecar-number c crest num,
          take_record-mismatch m consume bad c s r wrong,
        )
        (recover_loop_all m codec consume fuel back s (record r { dropped = r.dropped + 1 }) enough)

  length_le-bins : (envs : List E) → length envs ≤ length (bins (map m.write_to envs))
  unfolding bins
  length_le-bins [] = omega arith
  length_le-bins (env ∷ envs) =
      let buf = m.write_to env in
      omega (
        arith,
        length_le-bins envs,
        length-append (bin_record buf) (bins (map m.write_to envs)),
        length-bin_record buf,
      )

  -- A record whose number in the CRC file is not its own does not reach the consumer and is counted
  -- as dropped; the sound records before and behind it are all delivered, in order.
  pub recover_one_damaged :
      (front back : List E) (bad : Bytes) (c : ℕ) (s : S)
      → length bad < 2 ^ 32
      → c < 2 ^ 32
      → c ≢ crc32c bad
      → recover_one m consume
          (bins (map m.write_to front) ++ (bin_record bad ++ bins (map m.write_to back)))
          (some (crcs (map m.write_to front) ++ (to_le_bytes c ++ crcs (map m.write_to back))))
          s
        ≡ continue
            (consume_all m consume front s no_records)
            (λ s' r'. some (consume_all m consume back s' (record r' { dropped = r'.dropped + 1 })))
  unfolding recover_one
  recover_one_damaged front back bad c s len num wrong =
      let a = bins (map m.write_to front) in
      let b = bins (map m.write_to back) in
      let crest = crcs (map m.write_to back) in
      let total = length (a ++ (bin_record bad ++ b)) in
      let size : total ≡ length a + (4 + length bad + length b) = omega (
        arith,
        length-append a (bin_record bad ++ b),
        length-append (bin_record bad) b,
        length-bin_record bad,
      ) in
      let n : total ≡ length front + suc (total - length front - 1) =
        omega (arith, length_le-bins front, size) in
      let enough : length b ≤ total - length front - 1 =
        omega (arith, length_le-bins front, size) in
      rw n (
        recover_loop_sound (suc (total - length front - 1)) front (bin_record bad ++ b)
          (to_le_bytes c ++ crest) s no_records
        ∙ continue_cong (consume_all m consume front s no_records) _ _ (λ s' r'.
          recover_loop-damaged (total - length front - 1) back bad c s' r' len num wrong enough))
