-- ===== src/Wire/Varint/Bounds.antt =====
-- What the decoder of variable-length integers does on any bytes.
use obs.Prelude.{
  ℕ, zero, suc, ◌+◌, ◌*◌, ◌%◌, ◌^◌, ◌≤◌, ◌<◌, ◌≡◌, some, [], ◌∷◌, length, Bytes, bit_and, arith,
}
use obs.Prelude.Bits.{bit_or-lt}
use obs.Wire.Varint.{IsU64, add_group, decode_varint_loop, decode_varint}

decode_varint_loop_takes :
    (n value shift : ℕ) (src : Bytes) (v : ℕ) (rest : Bytes)
    → value < 2 ^ 64
    → decode_varint_loop n value shift src ≡ some (v, rest)
    → IsU64 v × (length rest < length src) × (length src ≤ length rest + n)
unfolding decode_varint_loop
decode_varint_loop_takes zero value shift src v rest h e = cc
decode_varint_loop_takes (suc n) value shift [] v rest h e = cc
decode_varint_loop_takes (suc n) value shift (b ∷ bs) v rest h e = ground (
  arith,
  bit_or-lt 64 value (bit_and b 0x7f * 2 ^ shift % 2 ^ 64) h (omega arith),
  decode_varint_loop_takes n (add_group value b shift) (shift + 7) bs v rest,
)

-- Whatever the bytes are, a number that `decode_varint` returns is a 64-bit one, and 1 to 10 bytes
-- were taken for it.
pub decode_varint_takes :
    (src : Bytes) (v : ℕ) (rest : Bytes)
    → decode_varint src ≡ some (v, rest)
    → IsU64 v × (length rest < length src) × (length src ≤ length rest + 10)
unfolding decode_varint
decode_varint_takes src v rest e = decode_varint_loop_takes 10 0 0 src v rest (omega arith) e
