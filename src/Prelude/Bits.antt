-- ===== src/Prelude/Bits.antt =====
-- `&`, `|` and `<<` on words as arithmetic.
use Prim.Native.Nat.{
  ℕ, zero, suc, ◌+◌, ◌*◌, ◌/◌, ◌%◌, ◌^◌, ◌≤◌, ◌<◌, max, digits, bit_and, bit_or, bit_or-bitwise,
}
use mathlib.Core.Path.{◌≡◌, refl, ap}
use mathlib.Core.Bool.{Bool, true, ◌&&◌}
use native.Mathlib.Nat.{pow-suc}
use native.Mathlib.Numerals.{towards_suc}
use native.Mathlib.Omega.{arith}
use obs.Prelude.Tests.{◌==◌, ==_iff}

-- A law on a byte is checked by a run over all of them.
holds_below : ℕ → (ℕ → Bool) → Bool
holds_below zero p = true
holds_below (suc n) p = p n && holds_below n p

holds_below_sound : (n : ℕ) (p : ℕ → Bool) (x : ℕ) → holds_below n p ≡ true → x < n → p x ≡ true
unfolding holds_below
holds_below_sound zero p x h l = absurd (omega arith)
holds_below_sound (suc n) p x h l = ground (arith, holds_below_sound n p x)

pub low_seven : (b : ℕ) → b < 256 → bit_and b 0x7f ≡ b % 128
unfolding holds_below
low_seven b h = (==_iff _ _).0 (holds_below_sound 256 (λ x. bit_and x 0x7f == x % 128) b refl h)

pub top_bit : (b : ℕ) → b < 256 → bit_and b 0x80 ≡ b / 128 * 128
unfolding holds_below
top_bit b h = (==_iff _ _).0 (holds_below_sound 256 (λ x. bit_and x 0x80 == x / 128 * 128) b refl h)

pub set_top_bit : (b : ℕ) → b < 256 → bit_or b 0x80 ≡ b % 128 + 128
unfolding holds_below
set_top_bit b h =
    (==_iff _ _).0 (holds_below_sound 256 (λ x. bit_or x 0x80 == x % 128 + 128) b refl h)

-- The count of digits to go does not matter once it is enough.
or_digits_fuel :
    (n m a b : ℕ) → a ≤ n → a ≤ m → digits (λ y. y) max n a b ≡ digits (λ y. y) max m a b
or_digits_fuel zero zero a b p q = refl
or_digits_fuel zero (suc m) zero b p q = refl
or_digits_fuel zero (suc m) (suc a) b p q = absurd (omega arith)
or_digits_fuel (suc n) zero zero b p q = refl
or_digits_fuel (suc n) zero (suc a) b p q = absurd (omega arith)
or_digits_fuel (suc n) (suc m) zero b p q = refl
or_digits_fuel (suc n) (suc m) (suc a) b p q =
    omega (arith, or_digits_fuel n m (suc a / 2) (b / 2) (omega arith) (omega arith))

-- The lowest digit of `|`, and the others.
pub bit_or_step : (x y : ℕ) → max (x % 2) (y % 2) + 2 * bit_or (x / 2) (y / 2) ≡ bit_or x y
bit_or_step (suc x) y =
    let digits = or_digits_fuel x (suc x / 2) (suc x / 2) (y / 2) (omega arith) (omega arith) in
    omega (arith, digits, bit_or-bitwise (suc x / 2) (y / 2), bit_or-bitwise (suc x) y)
bit_or_step zero y = omega (arith, bit_or-bitwise 0 (y / 2), bit_or-bitwise 0 y)

pub zero-bit_or : (b : ℕ) → bit_or 0 b ≡ b
zero-bit_or b = bit_or-bitwise 0 b

twice_shift : (q k : ℕ) → q * 2 ^ suc k ≡ 2 * (q * 2 ^ k)
twice_shift q k = omega (arith, ap (λ (t : ℕ). q * t) (pow-suc 2 k))

-- `value | (q << k)` adds up when `value` has its ones below bit `k`.
pub bit_or-shift : (k a q : ℕ) → a < 2 ^ k → bit_or a (q * 2 ^ k) ≡ a + q * 2 ^ k
bit_or-shift zero zero q h = omega (arith, zero-bit_or (q * 2 ^ 0))
bit_or-shift zero (suc a) q h = absurd (omega arith)
bit_or-shift (suc k) a q h = omega (
  arith,
  bit_or_step a (q * 2 ^ suc k),
  twice_shift q k,
  pow-suc 2 k,
  bit_or-shift k (a / 2) q (omega (arith, pow-suc 2 k)),
  ap (λ (t : ℕ). bit_or (a / 2) (t / 2)) (twice_shift q k),
  ap (λ (t : ℕ). bit_or (a / 2) t) (half_twice (q * 2 ^ k)),
)
  where
    half_twice : (n : ℕ) → 2 * n / 2 ≡ n
    half_twice n = omega arith

-- `|` of two `k`-bit words is one.
pub bit_or-lt : (k a b : ℕ) → a < 2 ^ k → b < 2 ^ k → bit_or a b < 2 ^ k
bit_or-lt zero zero b p q = omega (arith, zero-bit_or b)
bit_or-lt zero (suc a) b p q = absurd (omega arith)
bit_or-lt (suc k) a b p q = omega (
  arith,
  bit_or_step a b,
  pow-suc 2 k,
  bit_or-lt k (a / 2) (b / 2) (omega (arith, pow-suc 2 k)) (omega (arith, pow-suc 2 k)),
)

-- `x | 1` is odd.
pub bit_or-one : (a : ℕ) → bit_or a 1 % 2 ≡ 1
bit_or-one a = omega (arith, bit_or_step a 1)

pub shift_seven : (s : ℕ) → 2 ^ (s + 7) ≡ 128 * 2 ^ s
shift_seven s = simp towards_suc (omega arith)
