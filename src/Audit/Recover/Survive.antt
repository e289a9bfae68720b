-- ===== src/Audit/Recover/Survive.antt =====
-- What `recover_one` gives back of a spool that `append` wrote, after a crash and after damage.
use obs.Prelude.{
  ℕ, ◌+◌, ◌-◌, ◌≤◌, ◌≡◌, refl, sym, ap, ◌∙◌, some, List, [], ◌∷◌, ◌++◌, append_assoc, append-nil,
  Bytes, length, take, drop, length-append, length-take, take_past, drop-append, Result, ok, err,
  arith, map,
}
use obs.Wire.Message.{Message, IsCodec}
use obs.Audit.Append.{File, Writer}
use obs.Audit.Append.Policy.{bin_record, crc_record, bins, crcs, Holds}
use obs.Audit.Recover.{RecoveryReport, recover_loop, recover_one}
use obs.Audit.Recover.Frames.{continue}
use obs.Audit.Recover.Crash.{
  consume_all, whole, torn, torn_le, recover_loop-take, length-bin_record,
}

abbrev pub no_records : RecoveryReport
no_records = record { records = 0; dropped = 0 }

bins-append : (a b : List Bytes) → bins (a ++ b) ≡ bins a ++ bins b
unfolding bins
bins-append [] b = refl
bins-append (x ∷ a) b =
    ap (λ t. bin_record x ++ t) (bins-append a b)
    ∙ sym (append_assoc (bin_record x) (bins a) (bins b))

crcs-append : (a b : List Bytes) → crcs (a ++ b) ≡ crcs a ++ crcs b
unfolding crcs
crcs-append [] b = refl
crcs-append (x ∷ a) b =
    ap (λ t. crc_record x ++ t) (crcs-append a b)
    ∙ sym (append_assoc (crc_record x) (crcs a) (crcs b))

map-append : {A B : Type 0} (f : A → B) (a b : List A) → map f (a ++ b) ≡ map f a ++ map f b
map-append f [] b = refl
map-append f (x ∷ a) b = ap (λ t. f x ∷ t) (map-append f a b)

zero_behind : (n : ℕ) → n + 0 ≡ n
zero_behind n = omega arith

module _ {E : Type 0} (m : Message E) where
  -- All bytes hold all records, and none is torn.
  whole_all :
      (front back : List E) (k : ℕ)
      → whole m (length (bins (map m.write_to front)) + k) (front ++ back) ≡ front ++ whole m k back
  unfolding whole bins
  whole_all [] back k = ap (λ n. whole m n back) (omega arith)
  whole_all (env ∷ front) back k =
      let buf = m.write_to env in
      let n = length (bin_record buf ++ bins (map m.write_to front)) in
      let len : n ≡ 4 + length buf + length (bins (map m.write_to front)) = omega (
        arith,
        length-append (bin_record buf) (bins (map m.write_to front)),
        length-bin_record buf,
      ) in
      let rest : (n + k) - (4 + length buf) ≡ length (bins (map m.write_to front)) + k =
        omega (arith, len) in
      rw rest (ground (arith, len, whole_all front back k))

  torn_all :
      (front back : List E) (k : ℕ)
      → torn m (length (bins (map m.write_to front)) + k) (front ++ back) ≡ torn m k back
  unfolding torn bins
  torn_all [] back k = ap (λ n. torn m n back) (omega arith)
  torn_all (env ∷ front) back k =
      let buf = m.write_to env in
      let n = length (bin_record buf ++ bins (map m.write_to front)) in
      let len : n ≡ 4 + length buf + length (bins (map m.write_to front)) = omega (
        arith,
        length-append (bin_record buf) (bins (map m.write_to front)),
        length-bin_record buf,
      ) in
      let rest : (n + k) - (4 + length buf) ≡ length (bins (map m.write_to front)) + k =
        omega (arith, len) in
      rw rest (ground (arith, len, torn_all front back k))

  -- In all bytes every record lies whole.
  pub whole-length : (envs : List E) → whole m (length (bins (map m.write_to envs))) envs ≡ envs
  unfolding whole
  whole-length envs =
      rw (append-nil envs, zero_behind (length (bins (map m.write_to envs)))) at
        (whole_all envs [] 0)

  pub torn-length : (envs : List E) → torn m (length (bins (map m.write_to envs))) envs ≡ 0
  unfolding torn
  torn-length envs =
      rw (append-nil envs, zero_behind (length (bins (map m.write_to envs)))) at
        (torn_all envs [] 0)

pub take_all {ℓ} : {A : Type ℓ} (xs : List A) → take (length xs) xs ≡ xs
take_all [] = refl
take_all (x ∷ xs) = ap (λ t. x ∷ t) (take_all xs)

pub continue_done :
    {S X : Type 0} (o : Result X (S × RecoveryReport))
    → continue o (λ s r. some (ok (s, record r { dropped = r.dropped + 0 }))) ≡ some o
continue_done (err x) = refl
continue_done (ok (s, r)) = ground arith

-- A file after a crash of the host: what is durable, and some of the bytes written since.
abbrev pub after_crash : File → ℕ → Bytes
after_crash file k = file.durable ++ take k (drop (length file.durable) file.content)

take-crash {ℓ} :
    {A : Type ℓ} (front back : List A) (k : ℕ)
    → front ++ take k (drop (length front) (front ++ back))
      ≡ take (length front + k) (front ++ back)
take-crash front back k =
    let n : length front + k - length front ≡ k = omega arith in
    rw (drop-append front back, take_past (length front + k) front back (omega arith), n) refl

module _ {E S X : Type 0} (m : Message E) (codec : IsCodec m) (consume : S → E → Result X S) where
  -- Recovery from any first bytes of the two files.
  recover_one-take :
      (k c : ℕ) (envs : List E) (s : S)
      → recover_one m consume
          (take k (bins (map m.write_to envs)))
          (some (take c (crcs (map m.write_to envs))))
          s
        ≡ continue
            (consume_all m consume (whole m k envs) s no_records)
            (λ s' r'. some (ok (s', record r' { dropped = r'.dropped + torn m k envs })))
  unfolding recover_one
  recover_one-take k c envs s =
      let bin = bins (map m.write_to envs) in
      recover_loop-take m codec consume (length (take k bin)) k c envs s no_records
        (omega (arith, length-take k bin))

  -- After a crash of the host that left of the bytes not yet durable the first `k` of the bin file
  -- and any of the CRC file, recovery gives the consumer, in order, all envelopes whose append had
  -- become durable and those of the others whose records are whole, and no other. It counts them,
  -- and at most one record as dropped.
  pub recover_after_crash :
      (safe recent : List E) (w : Writer) (k c : ℕ) (s : S)
      → Holds (map m.write_to safe) (map m.write_to recent) w
      → (recover_one m consume (after_crash w.bin k) (some (after_crash w.crc c)) s
          ≡ continue
              (consume_all m consume (safe ++ whole m k recent) s no_records)
              (λ s' r'. some (ok (s', record r' { dropped = r'.dropped + torn m k recent }))))
        × (torn m k recent ≤ 1)
  recover_after_crash safe recent w k c s h =
      let a = map m.write_to safe in
      let b = map m.write_to recent in
      let run = recover_one-take (length (bins a) + k) (length (crcs a) + c) (safe ++ recent) s in
      (
        rw
            (
              h.bin_content,
              h.bin_durable,
              h.crc_content,
              h.crc_durable,
              bins-append,
              crcs-append,
              take-crash (bins a) (bins b) k,
              take-crash (crcs a) (crcs b) c,
            )
            (rw (map-append, bins-append, crcs-append, whole_all, torn_all) at run),
        torn_le m k recent,
      )

  pub recover_loop_all :
      (fuel : ℕ) (envs : List E) (s : S) (r : RecoveryReport)
      → length (bins (map m.write_to envs)) ≤ fuel
      → recover_loop m consume fuel
          (bins (map m.write_to envs))
          (some (crcs (map m.write_to envs)))
          s
          r
        ≡ some (consume_all m consume envs s r)
  recover_loop_all fuel envs s r h =
      let a = map m.write_to envs in
      let run =
        recover_loop-take m codec consume fuel (length (bins a)) (length (crcs a)) envs s r
          (omega (arith, h)) in
      rw (take_all (bins a), take_all (crcs a), whole-length, torn-length) at run
      ∙ continue_done (consume_all m consume envs s r)

  recover_one_all :
      (envs : List E) (s : S)
      → recover_one m consume (bins (map m.write_to envs)) (some (crcs (map m.write_to envs))) s
        ≡ some (consume_all m consume envs s no_records)
  unfolding recover_one
  recover_one_all envs s =
      recover_loop_all (length (bins (map m.write_to envs))) envs s no_records (omega arith)

  -- While the host has not crashed, recovery gives the consumer every appended envelope in order,
  -- until the consumer refuses one, and drops none.
  pub recover_one-append :
      (safe recent : List E) (w : Writer) (s : S)
      → Holds (map m.write_to safe) (map m.write_to recent) w
      → recover_one m consume w.bin.content (some w.crc.content) s
        ≡ some (consume_all m consume (safe ++ recent) s no_records)
  recover_one-append safe recent w s h =
      rw (h.bin_content, h.crc_content) (rw map-append at (recover_one_all (safe ++ recent) s))
