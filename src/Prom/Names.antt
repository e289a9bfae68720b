-- ===== src/Prom/Names.antt =====
-- The names of the metrics, in crates/obs-prom/src/sink.rs. A text is the list of its characters.
pub mod Valid
use obs.Prelude.{
  ℕ, ◌+◌, Bool, true, false, ◌&&◌, ◌||◌, Option, none, some, List, [], ◌∷◌, ◌++◌, Text, leb, ◌==◌,
  if◌then◌else◌,
}

unfoldable pub is_start : ℕ → Bool
is_start c = (leb b'a' c && leb c b'z') || (leb b'A' c && leb c b'Z') || (c == b'_') || (c == b':')

unfoldable pub is_rest : ℕ → Bool
unfolding is_start
is_rest c = is_start c || (leb b'0' c && leb c b'9')

unfoldable pub sanitize_rest : Text → Text
unfolding is_rest
sanitize_rest [] = []
sanitize_rest (c ∷ cs) = (if is_rest c then c else b'_') ∷ sanitize_rest cs

unfoldable pub sanitize_metric_name : Text → Text
unfolding is_start sanitize_rest
sanitize_metric_name [] = b'_' ∷ []
sanitize_metric_name (c ∷ cs) = (if is_start c then c else b'_') ∷ sanitize_rest cs

unfoldable pub strip_prefix : Text → Text → Option Text
strip_prefix [] s = some s
strip_prefix (c ∷ cs) [] = none
strip_prefix (c ∷ cs) (d ∷ ds) = let rest = strip_prefix cs ds in if c == d then rest else none

unfoldable pub reverse : Text → Text
reverse [] = []
reverse (c ∷ cs) = reverse cs ++ (c ∷ [])

unfoldable pub strip_suffix : Text → Text → Option Text
unfolding strip_prefix reverse
strip_suffix suffix s = elim (strip_prefix (reverse suffix) (reverse s)) [
  | none ↦ none
  | some t ↦ some (reverse t)
]

abbrev pub total_suffix : Text
total_suffix = b'_' ∷ b't' ∷ b'o' ∷ b't' ∷ b'a' ∷ b'l' ∷ []

abbrev pub count_suffix : Text
count_suffix = b'_' ∷ b'c' ∷ b'o' ∷ b'u' ∷ b'n' ∷ b't' ∷ []

abbrev pub counter_suffix : Text
counter_suffix = count_suffix ++ (b'e' ∷ b'r' ∷ [])

unfoldable pub strip_alias : Text → Text
unfolding strip_suffix
strip_alias base = elim (strip_suffix count_suffix base) [
  | some s ↦ s
  | none ↦ elim (strip_suffix counter_suffix base) [ some s ↦ s | none ↦ base ]
]

unfoldable pub counter_metric_name : Text → Text
unfolding sanitize_metric_name strip_suffix strip_alias
counter_metric_name raw =
    let base = sanitize_metric_name raw in
    elim (strip_suffix total_suffix base) [
      | some s ↦ base
      | none ↦ strip_alias base ++ total_suffix
    ]
