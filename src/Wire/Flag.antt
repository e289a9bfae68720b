-- ===== src/Wire/Flag.antt =====
-- A message for the runs in the test modules, with a codec that keeps the laws.
use obs.Prelude.{
  ℕ, ◌^◌, ◌<◌, ◌≡◌, refl, Bool, true, false, Option, some, [], ◌∷◌, Bytes, length, arith,
}
use obs.Wire.Message.{Message, IsCodec}

-- A message that is set or not.
unfoldable pub flag_size : Bool → ℕ
flag_size true = 2
flag_size false = 0

unfoldable pub flag_bytes : Bool → Bytes
flag_bytes true = 8 ∷ 1 ∷ []
flag_bytes false = []

unfoldable pub flag_of : Bytes → Option Bool
flag_of [] = some false
flag_of (x ∷ xs) = some true

abbrev pub flag : Message Bool
flag = record { compute_size = flag_size; write_to = flag_bytes; decode_from_slice = flag_of }

flag_size-lt : (e : Bool) → flag_size e < 2 ^ 32
unfolding flag_size
flag_size-lt true = omega arith
flag_size-lt false = omega arith

length-flag_bytes : (e : Bool) → length (flag_bytes e) ≡ flag_size e
unfolding flag_size flag_bytes
length-flag_bytes true = refl
length-flag_bytes false = refl

flag_of-flag_bytes : (e : Bool) → flag_of (flag_bytes e) ≡ some e
unfolding flag_of flag_bytes
flag_of-flag_bytes true = refl
flag_of-flag_bytes false = refl

pub flag-IsCodec : IsCodec flag
flag-IsCodec = record {
  compute_size-lt = flag_size-lt;
  length-write_to = length-flag_bytes;
  decode-write_to = flag_of-flag_bytes;
}
