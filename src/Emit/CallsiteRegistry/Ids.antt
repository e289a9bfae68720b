-- ===== src/Emit/CallsiteRegistry/Ids.antt =====
-- The ids of callsites: never zero, and not always different.
use obs.Prelude.{
  ◌∙◌, inl, inr, ℕ, zero, suc, ◌^◌, ◌≤◌, ◌<◌, ◌≡◌, sym, ap, false, Bool-cases, Option, List, [],
  ◌∷◌, ◌++◌, append_assoc, Bytes, Text, length, take, drop, length-take, All, ltb, ◌==◌, arith,
}
use obs.Prelude.Bits.{bit_or-lt, bit_or-one}
use native.Mathlib.Nat.{pow-suc}
use obs.Emit.Severity.{Severity}
use obs.Wire.Payload.{from_le_bytes}
use obs.Emit.CallsiteRegistry.{
  CallsiteSource, source_byte, severity_byte, line_bytes, names_bytes, perturb_to_nonzero,
  hash_input, id_of, callsite_id,
}

-- The documented behaviour of the hash: 32 bytes.
pub record IsHash (blake3 : Bytes → Bytes) : Type 0 where
  pub is_32 : (bs : Bytes) → length (blake3 bs) ≡ 32
  pub are_bytes : (bs : Bytes) → All (λ b. b < 256) (blake3 bs)

pow_pos : (n : ℕ) → 0 < 256 ^ n
pow_pos zero = omega arith
pow_pos (suc n) = omega (arith, pow-suc 256 n, pow_pos n)

from_le_bytes-lt :
    (n : ℕ) (bs : Bytes) → length bs ≤ n → All (λ b. b < 256) bs → from_le_bytes bs < 256 ^ n
unfolding from_le_bytes
from_le_bytes-lt n [] h all = pow_pos n
from_le_bytes-lt zero (b ∷ bs) h all = absurd (omega arith)
from_le_bytes-lt (suc n) (b ∷ bs) h all =
    omega (arith, pow-suc 256 n, all.0, from_le_bytes-lt n bs (omega arith) all.1)

pub All-take : (n : ℕ) (bs : Bytes) → All (λ b. b < 256) bs → All (λ b. b < 256) (take n bs)
All-take zero bs h = tt
All-take (suc n) [] h = tt
All-take (suc n) (b ∷ bs) h = (h.0, All-take n bs h.1)

All-drop : (n : ℕ) (bs : Bytes) → All (λ b. b < 256) bs → All (λ b. b < 256) (drop n bs)
All-drop zero bs h = h
All-drop (suc n) [] h = tt
All-drop (suc n) (b ∷ bs) h = All-drop n bs h.1

head-lt : (bs : Bytes) → All (λ b. b < 256) bs → from_le_bytes (take 8 bs) < 2 ^ 64
head-lt bs all =
    omega
      (arith, from_le_bytes-lt 8 (take 8 bs) (omega (arith, length-take 8 bs)) (All-take 8 bs all))

id_of_bounds :
    (raw : Bytes)
    → length raw ≡ 32
    → All (λ b. b < 256) raw
    → (0 < id_of raw) × (id_of raw < 2 ^ 64)
unfolding id_of perturb_to_nonzero
id_of_bounds raw is_32 all =
    let long : ltb (length raw) 8 ≡ false = ground (arith, is_32) in
    let longer : ltb (length raw) 16 ≡ false = ground (arith, is_32) in
    let head = head-lt raw all in
    let second = head-lt (drop 8 raw) (All-drop 8 raw all) in
    let odd = bit_or-one (from_le_bytes (take 8 (drop 8 raw))) in
    let small = bit_or-lt 64 (from_le_bytes (take 8 (drop 8 raw))) 1 second (omega arith) in
    elim (Bool-cases (from_le_bytes (take 8 raw) == 0)) [
      | inl e ↦ rw (id_of, long, e, perturb_to_nonzero, longer) (ground (arith, odd), small)
      | inr e ↦ rw (id_of, long, e) (ground (arith, e), head)
    ]

-- The id that is derived from a hash is a u64 and never zero, which stands for no callsite.
pub callsite_id_bounds :
    (blake3 : Bytes → Bytes) (source : CallsiteSource) (target file : Text) (line : Option ℕ)
    (level : Severity) (field_names : List Text) (template : Text)
    → IsHash blake3
    → (0 < callsite_id blake3 source target file line level field_names template)
      × (callsite_id blake3 source target file line level field_names template < 2 ^ 64)
unfolding callsite_id
callsite_id_bounds blake3 source target file line level field_names template hash =
    let input = hash_input source target file line level field_names template in
    id_of_bounds (blake3 input) (hash.is_32 input) (hash.are_bytes input)

-- The hash is given the target and the file with nothing in between, so callsites that split the
-- same text in two other ways have one id.
pub callsite_id_collides :
    (blake3 : Bytes → Bytes) (source : CallsiteSource) (a b c : Text) (line : Option ℕ)
    (level : Severity) (field_names : List Text) (template : Text)
    → callsite_id blake3 source (a ++ b) c line level field_names template
      ≡ callsite_id blake3 source a (b ++ c) line level field_names template
unfolding callsite_id hash_input
callsite_id_collides blake3 source a b c line level field_names template =
    let rest = line_bytes line ++ (severity_byte level ∷ (names_bytes field_names ++ template)) in
    ap (λ bytes. id_of (blake3 (source_byte source ∷ bytes)))
      (append_assoc a b (c ++ rest) ∙ ap (λ t. a ++ t) (sym (append_assoc b c rest)))
