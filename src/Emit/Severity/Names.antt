-- ===== src/Emit/Severity/Names.antt =====
-- `as_str` and `from_str` of `Severity` in crates/obs-proto/src/ext.rs.
use obs.Prelude.{
  ℕ, ◌+◌, ◌≡◌, refl, Bool, false, ◌&&◌, ◌||◌, List, [], ◌∷◌, map, Text, codes, text_eq, leb,
  if◌then◌else◌, Result, ok, err,
}
use obs.Emit.Severity.{Severity, unspecified, trace, debug, info, warn, error, fatal}

pub record UnknownVariant : Type 0 where
  pub kind : Text
  pub value : Text

unfoldable pub as_str : Severity → Text
as_str trace = codes "trace"
as_str debug = codes "debug"
as_str info = codes "info"
as_str warn = codes "warn"
as_str error = codes "error"
as_str fatal = codes "fatal"
as_str unspecified = codes "unspecified"

unfoldable pub to_lower : ℕ → ℕ
to_lower c = if leb b'A' c && leb c b'Z' then c + 32 else c

unfoldable pub to_ascii_lowercase : Text → Text
unfolding to_lower
to_ascii_lowercase s = map to_lower s

unfoldable pub is_one_of : List Text → Text → Bool
is_one_of [] s = false
is_one_of (w ∷ ws) s = text_eq s w || is_one_of ws s

-- The arm of the `match` for a text in lower case.
unfoldable pub from_lower : Text → Text → Result UnknownVariant Severity
unfolding is_one_of
from_lower s l =
    if is_one_of (codes "trace" ∷ codes "severity_trace" ∷ []) l
    then ok trace
    else if is_one_of (codes "debug" ∷ codes "severity_debug" ∷ []) l
    then ok debug
    else if is_one_of (codes "info" ∷ codes "severity_info" ∷ []) l
    then ok info
    else if is_one_of (codes "warn" ∷ codes "warning" ∷ codes "severity_warn" ∷ []) l
    then ok warn
    else if is_one_of (codes "error" ∷ codes "err" ∷ codes "severity_error" ∷ []) l
    then ok error
    else if is_one_of (codes "fatal" ∷ codes "severity_fatal" ∷ []) l
    then ok fatal
    else if is_one_of (codes "unspecified" ∷ codes "severity_unspecified" ∷ []) l
    then ok unspecified
    else err (record { kind = codes "Severity"; value = s })

unfoldable pub from_str : Text → Result UnknownVariant Severity
unfolding from_lower to_ascii_lowercase
from_str s = from_lower s (to_ascii_lowercase s)

-- Each severity is read back from its text.
pub from_str-as_str : (v : Severity) → from_str (as_str v) ≡ ok v
unfolding from_str as_str text_eq
from_str-as_str trace = refl
from_str-as_str debug = refl
from_str-as_str info = refl
from_str-as_str warn = refl
from_str-as_str error = refl
from_str-as_str fatal = refl
from_str-as_str unspecified = refl
