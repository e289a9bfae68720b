-- ===== src/Audit/Recover/Crash.antt =====
-- The loop of `recover_one` on the first bytes of the files that `append` writes.
use obs.Prelude.{
  ℕ, zero, suc, ◌+◌, ◌-◌, ◌%◌, ◌^◌, min, ◌≤◌, ◌<◌, ◌≡◌, refl, ap, ◌∙◌, Bool-cases, Option, none,
  some, List, [], ◌∷◌, ◌++◌, Bytes, ltb, if◌then◌else◌, length, take, length-append, length-take,
  take_past, take-append_le, Result, Result-cases, ok, err, arith, map, ◌⊎◌, inl, inr,
}
use obs.Wire.Message.{Message, IsCodec}
use obs.Audit.Crc.{crc32c}
use obs.Audit.Append.{to_le_bytes}
use obs.Audit.Append.Policy.{bin_record, crc_record, bins, crcs}
use obs.Audit.Recover.{RecoveryReport, read_sidecar, mismatch, take_record, recover_loop}
use obs.Audit.Recover.Frames.{
  continue, recover_loop-record, recover_loop-short, recover_loop-torn, read_sidecar-crc_record,
}

module _ {E S X : Type 0} (m : Message E) (consume : S → E → Result X S) where
  -- What recovery should do: give the envelopes to the consumer in order, until it refuses one, and
  -- count them.
  unfoldable pub consume_all : List E → S → RecoveryReport → Result X (S × RecoveryReport)
  consume_all [] s r = ok (s, r)
  consume_all (env ∷ envs) s r = elim (consume s env) [
    | err x ↦ err x
    | ok s' ↦ consume_all envs s' (record r { records = r.records + 1 })
  ]

-- The envelopes whose records lie whole in the first `k` bytes of the bin file.
unfoldable pub whole : {E : Type 0} → Message E → ℕ → List E → List E
whole m k [] = []
whole m k (env ∷ envs) =
    let len = 4 + length (m.write_to env) in
    let rest = whole m (k - len) envs in if ltb k len then [] else env ∷ rest

-- Whether the first `k` bytes end within the payload of a record: 1, or 0.
unfoldable pub torn : {E : Type 0} → Message E → ℕ → List E → ℕ
torn m k [] = 0
torn m k (env ∷ envs) =
    let len = 4 + length (m.write_to env) in
    let rest = torn m (k - len) envs in if ltb k 4 then 0 else if ltb k len then 1 else rest

pub torn_le : {E : Type 0} (m : Message E) (k : ℕ) (envs : List E) → torn m k envs ≤ 1
unfolding torn
torn_le m k [] = omega arith
torn_le m k (env ∷ envs) = ground (arith, torn_le m (k - (4 + length (m.write_to env))) envs)

pub length-bin_record : (buf : Bytes) → length (bin_record buf) ≡ 4 + length buf
unfolding to_le_bytes
length-bin_record buf = omega arith

length-crc_record : (buf : Bytes) → length (crc_record buf) ≡ 4
unfolding to_le_bytes
length-crc_record buf = refl

short_sidecar :
    (c : Bytes)
    → length c < 4
    → ((read_sidecar (some c)).0 ≡ none) × ((read_sidecar (some c)).1 ≡ some [])
unfolding read_sidecar
short_sidecar c h = ground arith

-- The CRC file does not speak against the record.
right_sidecar :
    (buf rest : Bytes) (k : ℕ)
    → ((read_sidecar (some (take k (crc_record buf ++ rest)))).0 ≡ none)
        × ((read_sidecar (some (take k (crc_record buf ++ rest)))).1 ≡ some [])
      ⊎ ((read_sidecar (some (take k (crc_record buf ++ rest)))).0 ≡ some (crc32c buf))
        × ((read_sidecar (some (take k (crc_record buf ++ rest)))).1 ≡ some (take (k - 4) rest))
right_sidecar buf rest k = elim (Bool-cases (ltb k 4)) [
  | inl short ↦ inl (
      short_sidecar (take k (crc_record buf ++ rest))
        (ground (arith, short, length-take k (crc_record buf ++ rest))))
  | inr long ↦ inr (
      rw
        (
          take_past k (crc_record buf) rest (ground (arith, long, length-crc_record buf)),
          length-crc_record buf,
          read_sidecar-crc_record buf (take (k - 4) rest),
        )
        (refl, refl))
]

module _ {E S X : Type 0} (m : Message E) (codec : IsCodec m) (consume : S → E → Result X S) where
  pub take_record-right :
      (env : E) (c : Option ℕ) (s : S) (r : RecoveryReport)
      → (c ≡ none) ⊎ (c ≡ some (crc32c (m.write_to env)))
      → take_record m consume (m.write_to env) c s r ≡ elim (consume s env) [
        | err x ↦ err x
        | ok s' ↦ ok (s', record r { records = r.records + 1 })
      ]
  unfolding take_record mismatch
  take_record-right env c s r (inl h) = ground (arith, codec.decode-write_to env)
  take_record-right env c s r (inr h) = ground (arith, codec.decode-write_to env)

  pub write_to-lt : (env : E) → length (m.write_to env) < 2 ^ 32
  write_to-lt env = omega (arith, codec.compute_size-lt env, codec.length-write_to env)

  -- A whole record with what is left of its number: the consumer's turn, and the rest of both files.
  recover_loop-whole :
      (fuel c : ℕ) (env : E) (rest crest : Bytes) (s : S) (r : RecoveryReport)
      → (c' : ℕ) × (recover_loop m consume
            (suc fuel)
            (bin_record (m.write_to env) ++ rest)
            (some (take c (crc_record (m.write_to env) ++ crest)))
            s
            r
          ≡ continue
              (elim (consume s env) [
                | err x ↦ err x
                | ok s' ↦ ok (s', record r { records = r.records + 1 })
              ])
              (λ s' r'. recover_loop m consume fuel rest (some (take c' crest)) s' r'))
  recover_loop-whole fuel c env rest crest s r =
      let buf = m.write_to env in
      let step =
        recover_loop-record m consume fuel buf rest (some (take c (crc_record buf ++ crest))) s r
          (write_to-lt env) in
      elim (right_sidecar buf crest c) [
        | inl (h0, h1) ↦ (0, step ∙ rw (h0, h1, take_record-right env none s r (inl refl)) refl)
        | inr (h0, h1) ↦ (
          c - 4,
          step ∙ rw (h0, h1, take_record-right env (some (crc32c buf)) s r (inr refl)) refl,
        )
      ]

  take_partial :
      (buf rest : Bytes) (k : ℕ)
      → 4 ≤ k
      → k < 4 + length buf
      → take k (bin_record buf ++ rest) ≡ to_le_bytes (length buf % 2 ^ 32) ++ take (k - 4) buf
  unfolding to_le_bytes
  take_partial buf rest k low high =
      take-append_le k (bin_record buf) rest (omega arith)
      ∙ take_past k (to_le_bytes (length buf % 2 ^ 32)) buf low

  -- The loop on the first bytes of each file.
  pub recover_loop-take :
      (fuel k c : ℕ) (envs : List E) (s : S) (r : RecoveryReport)
      → min k (length (bins (map m.write_to envs))) ≤ fuel
      → recover_loop m consume fuel
          (take k (bins (map m.write_to envs)))
          (some (take c (crcs (map m.write_to envs))))
          s
          r
        ≡ continue
            (consume_all m consume (whole m k envs) s r)
            (λ s' r'. some (ok (s', record r' { dropped = r'.dropped + torn m k envs })))
  unfolding bins crcs whole torn consume_all
  recover_loop-take fuel k c [] s r h =
      let nil : Bytes = [] in
      rw
        (recover_loop-short m consume fuel (take k nil) (some (take c [])) s r
          (omega (arith, length-take k nil)))
        (ground arith)
  recover_loop-take zero k c (env ∷ envs) s r h =
      let bin = bin_record (m.write_to env) ++ bins (map m.write_to envs) in
      rw
        (recover_loop-short m consume zero (take k bin)
          (some (take c (crcs (map m.write_to (env ∷ envs))))) s r
          (omega (arith, length-take k bin, h)))
        (ground (
          arith,
          h,
          length-append (bin_record (m.write_to env)) (bins (map m.write_to envs)),
          length-bin_record (m.write_to env),
        ))
  recover_loop-take (suc fuel) k c (env ∷ envs) s r h =
      let buf = m.write_to env in
      let rest = bins (map m.write_to envs) in
      let crc = crc_record buf ++ crcs (map m.write_to envs) in
      let bin = bin_record buf ++ rest in
      elim (Bool-cases (ltb k 4)) [
        | inl short ↦
            rw
              (recover_loop-short m consume (suc fuel) (take k bin) (some (take c crc)) s r
                (ground (arith, short, length-take k bin)))
              (ground (arith, short))
        | inr header ↦ elim (Bool-cases (ltb k (4 + length buf))) [
          | inl partial ↦
              rw
                (
                  take_partial buf rest k (ground (arith, header)) (ground (arith, partial)),
                  recover_loop-torn m consume fuel buf (take (k - 4) buf) (some (take c crc)) s r
                      (write_to-lt env) (ground (arith, partial, header, length-take (k - 4) buf)),
                )
                (ground (arith, partial, header))
          | inr full ↦
              let k' = k - (4 + length buf) in
              let (c', turn) =
                recover_loop-whole fuel c env (take k' rest) (crcs (map m.write_to envs)) s r in
              let at : take k bin ≡ bin_record buf ++ take k' rest =
                take_past k (bin_record buf) rest (ground (arith, full, length-bin_record buf))
                ∙ ap (λ n. bin_record buf ++ take (k - n) rest) (length-bin_record buf) in
              rw (at, turn)
                (elim (Result-cases (consume s env)) [
                  | inl (s', e) ↦ rw e (
                      ground (
                        arith,
                        full,
                        header,
                        e,
                        recover_loop-take fuel k' c' envs s' (record r { records = r.records + 1 })
                            (omega (
                              arith,
                              h,
                              length-bin_record buf,
                              length-append (bin_record buf) rest,
                            )),
                      ))
                  | inr (x, e) ↦ rw e (ground (arith, full, e))
                ])
        ]
      ]
