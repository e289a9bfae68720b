-- ===== src/Batch/Spool/RoundTrip.antt =====
-- A spool file gives back the batch that was written, unless an envelope is above the reader's limit.
use obs.Prelude.{
  ℕ, zero, suc, ◌≤◌, ◌<◌, ◌≡◌, ◌≢◌, refl, sym, ap, ◌∙◌, Option, none, some, List, [], ◌∷◌, ◌++◌,
  append_assoc, append-nil, All, Bytes, length, drop, length-append, length-drop, drop-append,
  Result, ok, err, arith, inl, inr, ◌⊎◌,
}
use obs.Wire.Message.{Message, IsCodec}
use obs.Wire.Frame.{
  FrameError, frame_too_large, encode_into_with_cache, encode_into, decode_frame, to_be_bytes,
}
use obs.Wire.Frame.Stream.{
  decode_frame-encode_into, decode_frame_takes, decode_frame_refuses, length-encode_into,
}
use obs.Batch.Spool.{
  SpoolError, decode, max_frame, encode_batch_loop, encode_batch, read_loop, read_file,
}

module _ {E : Type 0} (m : Message E) where
  -- One frame behind the other.
  pub frames : List E → Bytes
  frames [] = []
  frames (env ∷ envs) = encode_into m env [] ++ frames envs

  encode_into-append :
      (env : E) (buf : Bytes) → encode_into_with_cache m env buf ≡ buf ++ encode_into m env []
  unfolding encode_into_with_cache encode_into
  encode_into-append env buf = refl

  read_loop_step :
      (fuel : ℕ) (src : Bytes) (acc : List E) {env : E} {used : ℕ}
      → decode_frame m src max_frame ≡ ok (some (env, used))
      → read_loop m (suc fuel) src acc ≡ read_loop m fuel (drop used src) (acc ++ (env ∷ []))
  unfolding read_loop
  read_loop_step fuel [] acc e = absurd (omega (arith, decode_frame_takes m [] max_frame e))
  read_loop_step fuel (c ∷ cs) acc e = ground (arith, e)

  read_loop_stop :
      (fuel : ℕ) (src : Bytes) (acc : List E) {x : FrameError}
      → src ≢ []
      → decode_frame m src max_frame ≡ err x
      → read_loop m (suc fuel) src acc ≡ some (err decode)
  unfolding read_loop
  read_loop_stop fuel [] acc ne e = absurd (ne refl)
  read_loop_stop fuel (c ∷ cs) acc ne e = ground (arith, e)

  module _ (codec : IsCodec m) where
    encode_batch_loop_lem :
        (envs : List E) (buf : Bytes) → encode_batch_loop m envs buf ≡ ok (buf ++ frames envs)
    unfolding encode_batch_loop frames
    encode_batch_loop_lem [] buf = ap ok (sym (append-nil buf))
    encode_batch_loop_lem (env ∷ envs) buf = ground (
      arith,
      codec.compute_size-lt env,
      encode_into-append env buf,
      encode_batch_loop_lem envs (buf ++ encode_into m env []),
      append_assoc buf (encode_into m env []) (frames envs),
    )

    pub encode_batch_lem : (envs : List E) → encode_batch m envs ≡ ok (frames envs)
    unfolding encode_batch
    encode_batch_lem envs = encode_batch_loop_lem envs []

    -- After the frames of `front`, each within the limit, the loop stands before `rest`.
    read_loop-frames :
        (front : List E) (fuel : ℕ) (rest : Bytes) (acc : List E)
        → All (λ env. m.compute_size env ≤ max_frame) front
        → length (frames front ++ rest) ≤ fuel
        → (fuel' : ℕ) × (length rest ≤ fuel')
          × (read_loop m fuel (frames front ++ rest) acc ≡ read_loop m fuel' rest (acc ++ front))
    unfolding frames
    read_loop-frames [] fuel rest acc ok_sizes h = (fuel, h, rw append-nil refl)
    read_loop-frames (env ∷ front) zero rest acc ok_sizes h = absurd (
        omega (
          arith,
          length-append (encode_into m env [] ++ frames front) rest,
          length-append (encode_into m env []) (frames front),
          length-encode_into m codec env,
        ))
    read_loop-frames (env ∷ front) (suc fuel) rest acc (small, ok_sizes) h =
        let frame = encode_into m env [] in
        let tail = frames front ++ rest in
        let (fuel', enough, e) = read_loop-frames front fuel rest (acc ++ (env ∷ [])) ok_sizes (
          omega (
            arith,
            length-append (frame ++ frames front) rest,
            length-append frame (frames front),
            length-append (frames front) rest,
            length-encode_into m codec env,
          )) in
        (
          fuel',
          enough,
          rw (append_assoc frame (frames front) rest) (
              read_loop_step fuel (frame ++ tail) acc
                (decode_frame-encode_into m codec env tail max_frame small)
              ∙ rw (drop-append frame tail) e
              ∙ ap (read_loop m fuel' rest) (append_assoc acc (env ∷ []) front)),
        )

    frames-append : (front back : List E) → frames (front ++ back) ≡ frames front ++ frames back
    unfolding frames
    frames-append [] back = refl
    frames-append (env ∷ front) back =
        ap (λ t. encode_into m env [] ++ t) (frames-append front back)
        ∙ sym (append_assoc (encode_into m env []) (frames front) (frames back))

    refused :
        (env : E) (rest : Bytes)
        → max_frame < m.compute_size env
        → decode_frame m (encode_into m env [] ++ rest) max_frame ≡ err frame_too_large
    unfolding encode_into to_be_bytes
    refused env rest large =
        decode_frame_refuses m codec env (m.write_to env ++ rest) max_frame large

    -- The loop stops at a frame above the limit.
    read_loop-large :
        (fuel : ℕ) (env : E) (rest : Bytes) (acc : List E)
        → max_frame < m.compute_size env
        → length (encode_into m env [] ++ rest) ≤ fuel
        → read_loop m fuel (encode_into m env [] ++ rest) acc ≡ some (err decode)
    read_loop-large zero env rest acc large h =
        absurd
          (omega (arith, length-append (encode_into m env []) rest, length-encode_into m codec env))
    read_loop-large (suc fuel) env rest acc large h =
        read_loop_stop fuel _ acc
          (λ e. absurd (
            omega (
              arith,
              ap length e,
              length-append (encode_into m env []) rest,
              length-encode_into m codec env,
            )))
          (refused env rest large)

-- `read_file` gives back the envelopes of a batch in order from the bytes that `write` put into the
-- file, if none of them is larger than the reader's limit of 2 ^ 30 bytes.
pub read_file-encode_batch :
    {E : Type 0} (m : Message E) (codec : IsCodec m) (envs : List E)
    → All (λ env. m.compute_size env ≤ max_frame) envs
    → (buf : Bytes) × (encode_batch m envs ≡ ok buf) × (read_file m buf ≡ some (ok envs))
unfolding read_file
read_file-encode_batch m codec envs small = (
  frames m envs,
  encode_batch_lem m codec envs,
  (let (fuel, _, e) =
        read_loop-frames m codec envs (length (frames m envs)) [] [] small
          (omega (arith, length-append (frames m envs) [])) in
      ap (λ t. read_loop m (length (frames m envs)) t []) (sym (append-nil (frames m envs)))
      ∙ e
      ∙ unfold read_loop in refl),
)

-- `write` accepts an envelope above the reader's limit, and `read_file` then refuses the whole file,
-- whatever else it holds.
pub read_file_loses_large :
    {E : Type 0} (m : Message E) (codec : IsCodec m) (front back : List E) (env : E)
    → All (λ e. m.compute_size e ≤ max_frame) front
    → max_frame < m.compute_size env
    → (buf : Bytes) × (encode_batch m (front ++ (env ∷ back)) ≡ ok buf)
      × (read_file m buf ≡ some (err decode))
unfolding read_file frames
read_file_loses_large m codec front back env small large =
    let buf = frames m (front ++ (env ∷ back)) in
    let split = frames-append m codec front (env ∷ back) in
    let (fuel, enough, e) =
      read_loop-frames m codec front (length buf) (encode_into m env [] ++ frames m back) [] small
        (omega (arith, ap length split)) in
    (
      buf,
      encode_batch_lem m codec (front ++ (env ∷ back)),
      ap (λ t. read_loop m (length buf) t []) split
          ∙ e
          ∙ read_loop-large m codec fuel env (frames m back) front large enough,
    )

Frame-cases :
    {E : Type 0} (r : Result FrameError (Option (E × ℕ)))
    → (r ≡ ok none)
      ⊎ ((x : FrameError) × (r ≡ err x))
      ⊎ ((env : E) × (used : ℕ) × (r ≡ ok (some (env, used))))
Frame-cases (err x) = inr (inl (x, refl))
Frame-cases (ok none) = inl refl
Frame-cases (ok (some (env, used))) = inr (inr (env, used, refl))

module _ {E : Type 0} (m : Message E) where
  read_loop_ends :
      (fuel : ℕ) (src : Bytes) (acc : List E)
      → length src ≤ fuel
      → (r : Result SpoolError (List E)) × (read_loop m fuel src acc ≡ some r)
  unfolding read_loop
  read_loop_ends fuel [] acc h = (ok acc, refl)
  read_loop_ends zero (c ∷ cs) acc h = absurd (omega arith)
  read_loop_ends (suc fuel) (c ∷ cs) acc h =
      elim (Frame-cases (decode_frame m (c ∷ cs) max_frame)) [
        | inl e ↦ (err decode, ground (arith, e))
        | inr (inl (x, e)) ↦ (err decode, ground (arith, e))
        | inr (inr (env, used, e)) ↦
            let (r, q) = read_loop_ends fuel (drop used (c ∷ cs)) (acc ++ (env ∷ [])) (
              omega
                (arith, length-drop used (c ∷ cs), decode_frame_takes m (c ∷ cs) max_frame e)) in
            (r, read_loop_step m fuel (c ∷ cs) acc e ∙ q)
      ]

-- `read_file` ends on any bytes, with the envelopes or with an error.
pub read_file_ends :
    {E : Type 0} (m : Message E) (buf : Bytes)
    → (r : Result SpoolError (List E)) × (read_file m buf ≡ some r)
unfolding read_file
read_file_ends m buf = read_loop_ends m _ buf [] (omega arith)
