-- ===== src/Batch/Tests.antt =====
-- Runs of the spool, and the theorems on frames and on the spool at concrete inputs.
use obs.Prelude.{
  ℕ, zero, suc, ◌+◌, ◌^◌, ◌<◌, ◌≡◌, refl, ap, Bool, true, false, not, some, List, [], ◌∷◌, ◌++◌,
  Bytes, text_eq, length, ok, err, arith,
}
use obs.Wire.Message.{Message, IsCodec}
use obs.Wire.Flag.{flag_size, flag_of, flag, flag-IsCodec}
use obs.Wire.Frame.{encode_into, decode_frame}
use obs.Wire.Frame.Stream.{decode_frame-encode_into}
use obs.Batch.Spool.{decode, encode_batch, read_file, File, DirAnswers, evict_to_cap}
use obs.Batch.Spool.RoundTrip.{read_file-encode_batch, read_file_loses_large}

-- A message whose set form is `n` bytes long.
zeros : ℕ → Bytes
zeros zero = []
zeros (suc n) = 0 ∷ zeros n

length-zeros : (n : ℕ) → length (zeros n) ≡ n
unfolding zeros
length-zeros zero = refl
length-zeros (suc n) = ap suc (length-zeros n)

module _ (n : ℕ) where
  bulk_size : Bool → ℕ
  bulk_size true = n
  bulk_size false = 0

  bulk_bytes : Bool → Bytes
  bulk_bytes true = zeros n
  bulk_bytes false = []

  abbrev bulk : Message Bool
  bulk = record { compute_size = bulk_size; write_to = bulk_bytes; decode_from_slice = flag_of }

  bulk-IsCodec : 0 < n → n < 2 ^ 32 → IsCodec bulk
  bulk-IsCodec pos small = record {
    compute_size-lt = bound;
    length-write_to = size;
    decode-write_to = back;
  }
    where
      bound : (e : Bool) → bulk_size e < 2 ^ 32
      bound true = unfold bulk_size in small
      bound false = unfold bulk_size in omega arith

      size : (e : Bool) → length (bulk_bytes e) ≡ bulk_size e
      size true = unfold bulk_size bulk_bytes in length-zeros n
      size false = unfold bulk_size bulk_bytes in refl

      back : (e : Bool) → flag_of (bulk_bytes e) ≡ some e
      back true = unfold bulk_bytes in nonempty (zeros n) (omega (arith, length-zeros n))
        where
          nonempty : (xs : Bytes) → 0 < length xs → flag_of xs ≡ some true
          nonempty [] h = absurd (omega arith)
          nonempty (x ∷ xs) h = unfold flag_of in refl
      back false = unfold bulk_bytes flag_of in refl

decode_frame-encode_into_example :
    decode_frame flag (encode_into flag true [] ++ (7 ∷ [])) 16
    ≡ ok (some (true, length (encode_into flag true [])))
unfolding flag_size
decode_frame-encode_into_example =
    decode_frame-encode_into flag flag-IsCodec true (7 ∷ []) 16 (omega arith)

read_file-encode_batch_example :
    (buf : Bytes) × (encode_batch flag (true ∷ false ∷ []) ≡ ok buf)
    × (read_file flag buf ≡ some (ok (true ∷ false ∷ [])))
unfolding flag_size
read_file-encode_batch_example =
    read_file-encode_batch flag flag-IsCodec (true ∷ false ∷ []) (omega arith)

read_file_loses_large_example :
    (buf : Bytes) × (encode_batch (bulk (2 ^ 30 + 1)) (false ∷ true ∷ false ∷ []) ≡ ok buf)
    × (read_file (bulk (2 ^ 30 + 1)) buf ≡ some (err decode))
unfolding bulk_size
read_file_loses_large_example =
    read_file_loses_large (bulk (2 ^ 30 + 1))
      (bulk-IsCodec (2 ^ 30 + 1) (omega arith) (omega arith)) (false ∷ []) (false ∷ []) true
      (omega arith) (omega arith)

abbrev three_files : List File
three_files =
    record { path = b'a' ∷ []; content = 1 ∷ 1 ∷ 1 ∷ [] }
    ∷ record { path = b'b' ∷ []; content = 2 ∷ 2 ∷ [] }
    ∷ record { path = b'c' ∷ []; content = 3 ∷ 3 ∷ [] }
    ∷ []

-- The removal of `b` fails, and its bytes count as gone.
abbrev b_is_stuck : DirAnswers
b_is_stuck = record {
  can_measure = true;
  can_collect = true;
  other_bytes = 1;
  is_measured = λ path. true;
  can_stat = λ path. true;
  can_unlink = λ path. not (text_eq path (b'b' ∷ []));
}

evict_oldest :
    evict_to_cap b_is_stuck 4 three_files
    ≡ record { path = b'b' ∷ []; content = 2 ∷ 2 ∷ [] }
      ∷ record { path = b'c' ∷ []; content = 3 ∷ 3 ∷ [] }
      ∷ []
unfolding evict_to_cap text_eq
evict_oldest = refl
