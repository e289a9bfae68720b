-- ===== src/Wire/Payload/Utf8.antt =====
-- `String::from_utf8` of the Rust standard library: which byte sequences are text.
use obs.Prelude.{
  ℕ, zero, suc, Bool, false, ◌&&◌, Option, none, some, [], ◌∷◌, Bytes, Text, ltb, leb, ◌==◌,
  if◌then◌else◌, ◌≡◌, refl,
}

-- How many continuation bytes are due, and the range of the next one.
abbrev State : Type 0
State = ℕ × ℕ × ℕ

utf8_lead : ℕ → Option State
utf8_lead byte =
    if ltb byte 0x80
    then some (0, 0, 0)
    else if ltb byte 0xc2
    then none
    else if ltb byte 0xe0
    then some (1, 0x80, 0xbf)
    else if byte == 0xe0
    then some (2, 0xa0, 0xbf)
    else if byte == 0xed
    then some (2, 0x80, 0x9f)
    else if ltb byte 0xf0
    then some (2, 0x80, 0xbf)
    else if byte == 0xf0
    then some (3, 0x90, 0xbf)
    else if ltb byte 0xf4
    then some (3, 0x80, 0xbf)
    else if byte == 0xf4
    then some (3, 0x80, 0x8f)
    else none

utf8_next : State → ℕ → Option State
unfolding utf8_lead
utf8_next (zero, lo, hi) byte = utf8_lead byte
utf8_next (suc n, lo, hi) byte = if leb lo byte && leb byte hi then some (n, 0x80, 0xbf) else none

utf8_run : State → Bytes → Bool
unfolding utf8_next
utf8_run (due, lo, hi) [] = due == 0
utf8_run s (byte ∷ rest) = elim (utf8_next s byte) [ none ↦ false | some s' ↦ utf8_run s' rest ]

unfoldable pub from_utf8 : Bytes → Option Text
unfolding utf8_run
from_utf8 b = if utf8_run (0, 0, 0) b then some b else none

euro_sign : from_utf8 (0xe2 ∷ 0x82 ∷ 0xac ∷ []) ≡ some (0xe2 ∷ 0x82 ∷ 0xac ∷ [])
unfolding from_utf8
euro_sign = refl

surrogate : from_utf8 (0xed ∷ 0xa0 ∷ 0x80 ∷ []) ≡ none
unfolding from_utf8
surrogate = refl
