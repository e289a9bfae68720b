-- ===== src/Emit/Severity.antt =====
-- The severities of crates/obs-proto/proto/obs/v1/enums.proto with the order of crates/obs-proto/src/ext.rs.
pub mod Names
use obs.Prelude.{ℕ, ◌≡◌, Bool, true, false, leb, ltb, arith}

pub data Severity : Type 0 where
  unspecified trace debug info warn error fatal : Severity

-- `*self as i32`
unfoldable pub number : Severity → ℕ
number unspecified = 0
number trace = 1
number debug = 2
number info = 3
number warn = 4
number error = 5
number fatal = 6

-- `a >= b`, by `Ord::cmp`
unfoldable pub at_least : Severity → Severity → Bool
at_least a b = leb (number b) (number a)

-- `a < b`, by `Ord::cmp`
unfoldable pub below : Severity → Severity → Bool
below a b = ltb (number a) (number b)

-- `below` and `at_least` are complementary.
pub below-false : (a b : Severity) → below a b ≡ false → at_least a b ≡ true
unfolding below at_least
below-false a b h = ground arith

pub below-true : (a b : Severity) → below a b ≡ true → at_least a b ≡ false
unfolding below at_least
below-true a b h = ground arith
