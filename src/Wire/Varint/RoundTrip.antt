-- ===== src/Wire/Varint/RoundTrip.antt =====
-- Encoding and decoding of variable-length integers, and the lengths that the decoder counts.
use mathlib.Core.WellFounded.{Acc}
use obs.Prelude.{
  ℕ, zero, suc, ◌+◌, ◌*◌, ◌/◌, ◌%◌, ◌^◌, ◌≤◌, ◌<◌, ◌≡◌, refl, ap, ◌∙◌, some, [], ◌∷◌, ◌++◌, length,
  All, lt_wf, Bytes, arith,
}
use obs.Prelude.Bits.{low_seven, top_bit, set_top_bit, bit_or-shift, shift_seven}
use native.Mathlib.Decide.{dec_le}
use native.Mathlib.Bridge.{le_prop}
use mathlib.Core.Logic.{dif_pos, dif_neg}
use native.Mathlib.Nat.{mul-le-mul_right}
use obs.Wire.Varint.{
  IsU64, decode_varint_loop, decode_varint, encode_raw_varint_loop, encode_raw_varint,
  varint_len_loop, varint_len, group_shrinks,
}

-- One round of the decoder over a last byte, and over a byte with the top bit set.
last_group :
    (n g value shift : ℕ) (rest : Bytes)
    → g < 128
    → value < 2 ^ shift
    → value + g * 2 ^ shift < 2 ^ 64
    → decode_varint_loop (suc n) value shift (g ∷ rest) ≡ some (value + g * 2 ^ shift, rest)
unfolding decode_varint_loop
last_group n g value shift rest hg hv fits =
    ground (arith, low_seven g, top_bit g, bit_or-shift shift value g)

inner_group :
    (n g value shift : ℕ) (rest : Bytes)
    → g < 128
    → value < 2 ^ shift
    → value + g * 2 ^ shift < 2 ^ 64
    → decode_varint_loop (suc n) value shift ((g + 128) ∷ rest)
      ≡ decode_varint_loop n (value + g * 2 ^ shift) (shift + 7) rest
unfolding decode_varint_loop
inner_group n g value shift rest hg hv fits =
    ground (arith, low_seven (g + 128), top_bit (g + 128), bit_or-shift shift value g)

-- A number is its low group and the rest of it, seven bits farther up.
groups_sum : (shift n : ℕ) → n / 128 * 2 ^ (shift + 7) + n % 128 * 2 ^ shift ≡ n * 2 ^ shift
groups_sum shift n =
    let parts : (128 * (n / 128) + n % 128) * 2 ^ shift ≡ n * 2 ^ shift =
      ap (λ (q : ℕ). q * 2 ^ shift) (omega arith) in
    let up : n / 128 * 2 ^ (shift + 7) ≡ n / 128 * (128 * 2 ^ shift) =
      ap (λ (p : ℕ). n / 128 * p) (shift_seven shift) in
    omega (arith, parts, up)

-- What has been read stays below the bit that comes next.
next_bound :
    (g value shift : ℕ) → g < 128 → value < 2 ^ shift → value + g * 2 ^ shift < 2 ^ (shift + 7)
next_bound g value shift hg hv = omega (arith, shift_seven shift, top)
  where
    top : g * 2 ^ shift ≤ 127 * 2 ^ shift
    top = mul-le-mul_right (2 ^ shift) (omega arith)

-- One round of the encoder.
encode_last : (w : ℕ) (a : Acc ◌<◌ w) → w < 128 → encode_raw_varint_loop w a ≡ w ∷ []
unfolding encode_raw_varint_loop
encode_last w (Acc.intro _ smaller) h = elim (dec_le 128 w) [
  | yes p ↦ absurd (omega arith)
  | no p ↦ rw (dif_neg _ p) (ap (λ t. t ∷ []) (omega arith))
]

encode_inner :
    (w : ℕ) (a : Acc ◌<◌ w)
    → 128 ≤ w
    → (b : Acc ◌<◌ (w / 128)) × (encode_raw_varint_loop w a
        ≡ (w % 128 + 128) ∷ encode_raw_varint_loop (w / 128) b)
unfolding encode_raw_varint_loop
encode_inner w (Acc.intro _ smaller) h = (
  smaller _ (group_shrinks w h),
  dif_pos (dec_le 128 w) le_prop h _ _
      ∙ ap (λ (t : ℕ). t ∷ encode_raw_varint_loop (w / 128) (smaller _ (group_shrinks w h)))
          (omega (arith, set_top_bit (w % 256) (omega arith))),
)

-- `w` is what is still to be read, and counts from bit `shift` on.
decode-encode_loop :
    (n w : ℕ) (a : Acc ◌<◌ w) (value shift : ℕ) (rest : Bytes)
    → w < 128 ^ suc n
    → value < 2 ^ shift
    → value + w * 2 ^ shift < 2 ^ 64
    → decode_varint_loop (suc n) value shift (encode_raw_varint_loop w a ++ rest)
      ≡ some (value + w * 2 ^ shift, rest)
decode-encode_loop zero w a value shift rest hw hv fits =
    rw (encode_last w a (omega arith)) (last_group 0 w value shift rest (omega arith) hv fits)
decode-encode_loop (suc n) w a value shift rest hw hv fits = elim (dec_le 128 w) [
  | yes p ↦
      let (b, e) = encode_inner w a p in
      rw e (
        ground (
          arith,
          groups_sum shift w,
          next_bound (w % 128) value shift,
          inner_group (suc n) (w % 128) value shift (encode_raw_varint_loop (w / 128) b ++ rest),
          decode-encode_loop n (w / 128) b (value + w % 128 * 2 ^ shift) (shift + 7) rest
              (omega arith),
        ))
  | no p ↦
      rw (encode_last w a (omega arith))
        (last_group (suc n) w value shift rest (omega arith) hv fits)
]

-- `decode_varint` reads back every 64-bit number that `encode_raw_varint` writes, and leaves the
-- bytes that follow it.
pub decode_varint-encode_raw_varint :
    (v : ℕ) (rest : Bytes) → IsU64 v → decode_varint (encode_raw_varint v ++ rest) ≡ some (v, rest)
unfolding decode_varint encode_raw_varint
decode_varint-encode_raw_varint v rest h =
    decode-encode_loop 9 v (lt_wf.apply v) 0 0 rest (omega arith) (omega arith) (omega arith)
    ∙ ap (λ (t : ℕ). some (t, rest)) (omega arith)

varint_len_last : (w : ℕ) (a : Acc ◌<◌ w) (n : ℕ) → w < 128 → varint_len_loop w a n ≡ n
unfolding varint_len_loop
varint_len_last w (Acc.intro _ smaller) n h = elim (dec_le 128 w) [
  | yes p ↦ absurd (omega arith)
  | no p ↦ rw (dif_neg _ p) refl
]

varint_len_inner :
    (w : ℕ) (a : Acc ◌<◌ w) (n : ℕ)
    → 128 ≤ w
    → (b : Acc ◌<◌ (w / 128)) × (varint_len_loop w a n ≡ varint_len_loop (w / 128) b (n + 1))
unfolding varint_len_loop
varint_len_inner w (Acc.intro _ smaller) n h =
    (smaller _ (group_shrinks w h), dif_pos (dec_le 128 w) le_prop h _ _)

varint_len_loop_lem :
    (n w m : ℕ) (a b : Acc ◌<◌ w)
    → w < 128 ^ suc n
    → varint_len_loop w a (m + 1) ≡ m + length (encode_raw_varint_loop w b)
varint_len_loop_lem zero w m a b h =
    rw (varint_len_last w a (m + 1) (omega arith), encode_last w b (omega arith)) refl
varint_len_loop_lem (suc n) w m a b h = elim (dec_le 128 w) [
  | yes p ↦
      let (a', e) = varint_len_inner w a (m + 1) p in
      let (b', f) = encode_inner w b p in
      omega (arith, e, ap length f, varint_len_loop_lem n (w / 128) (m + 1) a' b' (omega arith))
  | no p ↦ rw (varint_len_last w a (m + 1) (omega arith), encode_last w b (omega arith)) refl
]

-- `varint_len` is the number of bytes that `encode_raw_varint` writes.
pub varint_len_lem : (v : ℕ) → IsU64 v → varint_len v ≡ length (encode_raw_varint v)
unfolding varint_len encode_raw_varint
varint_len_lem v h =
    omega (arith, varint_len_loop_lem 9 v 0 (lt_wf.apply v) (lt_wf.apply v) (omega arith))

encode_loop_bounds :
    (n w : ℕ) (a : Acc ◌<◌ w)
    → w < 128 ^ suc n
    → (1 ≤ length (encode_raw_varint_loop w a))
      × (length (encode_raw_varint_loop w a) ≤ suc n)
      × All (λ b. b < 256) (encode_raw_varint_loop w a)
encode_loop_bounds zero w a h = rw (encode_last w a (omega arith)) (omega arith)
encode_loop_bounds (suc n) w a h = elim (dec_le 128 w) [
  | yes p ↦
      let (b, e) = encode_inner w a p in
      let (lo, hi, bytes) = encode_loop_bounds n (w / 128) b (omega arith) in
      rw e (omega arith, omega arith, (omega arith, bytes))
  | no p ↦ rw (encode_last w a (omega arith)) (omega arith)
]

-- `encode_raw_varint` writes 1 to 10 bytes for a 64-bit number.
pub encode_raw_varint_bounds :
    (v : ℕ)
    → IsU64 v
    → (1 ≤ length (encode_raw_varint v))
      × (length (encode_raw_varint v) ≤ 10)
      × All (λ b. b < 256) (encode_raw_varint v)
unfolding encode_raw_varint
encode_raw_varint_bounds v h = encode_loop_bounds 9 v (lt_wf.apply v) (omega arith)
