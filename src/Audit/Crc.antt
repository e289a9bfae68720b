-- ===== src/Audit/Crc.antt =====
-- CRC-32C of crates/obs-core/src/audit_spool.rs, bit by bit.
use obs.Prelude.{
  ℕ, zero, suc, ◌-◌, ◌/◌, ◌%◌, ◌^◌, ◌<◌, ◌≡◌, refl, [], ◌∷◌, Bytes, bit_and, bit_xor, arith,
}

-- `CRC32C_POLY`
abbrev crc32c_poly : ℕ
crc32c_poly = 0x82F63B78

-- `mask = (crc & 1).wrapping_neg()`, then `(crc >> 1) ^ (CRC32C_POLY & mask)`.
crc_bit : ℕ → ℕ
crc_bit crc =
    let mask = (2 ^ 32 - bit_and crc 1) % 2 ^ 32 in bit_xor (crc / 2) (bit_and crc32c_poly mask)

crc_bits : ℕ → ℕ → ℕ
crc_bits zero crc = crc
crc_bits (suc n) crc = crc_bits n (crc_bit crc)

crc_bytes : ℕ → Bytes → ℕ
crc_bytes crc [] = crc
crc_bytes crc (b ∷ bs) = crc_bytes (crc_bits 8 (bit_xor crc b)) bs

-- `!0` before, `!crc` behind.
unfoldable pub crc32c : Bytes → ℕ
unfolding crc_bit crc_bits crc_bytes
crc32c bs = 2 ^ 32 - 1 - crc_bytes (2 ^ 32 - 1) bs

pub crc32c-lt : (bs : Bytes) → crc32c bs < 2 ^ 32
unfolding crc32c
crc32c-lt bs = omega arith

-- The published check value, of "123456789".
check_value :
    crc32c (b'1' ∷ b'2' ∷ b'3' ∷ b'4' ∷ b'5' ∷ b'6' ∷ b'7' ∷ b'8' ∷ b'9' ∷ []) ≡ 0xE306_9283
unfolding crc32c
check_value = refl
