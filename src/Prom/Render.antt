-- ===== src/Prom/Render.antt =====
-- The lines of one series in crates/obs-prom/src/render.rs. A text is the list of its characters.
pub mod Read
mod Tests
use obs.Prelude.{
  ℕ, ◌+◌, Bool, true, false, Option, none, some, List, [], ◌∷◌, ◌++◌, Text, text_eq, ◌==◌,
  if◌then◌else◌,
}
use obs.Prom.Series.{
  SeriesKind, counter, gauge_u64, gauge_f64, histogram, SeriesKey, SeriesState, HistogramState,
}
use obs.Prom.Deliver.{sort}
use obs.Sink.Rolling.{digits}

abbrev pub quote : ℕ
quote = 34

abbrev pub backslash : ℕ
backslash = 92

abbrev pub newline : ℕ
newline = 10

unfoldable pub escape_into : Text → Text
escape_into [] = []
escape_into (c ∷ cs) =
    let rest = escape_into cs in
    if c == backslash
    then backslash ∷ backslash ∷ rest
    else if c == quote
    then backslash ∷ quote ∷ rest
    else if c == newline
    then backslash ∷ b'n' ∷ rest
    else c ∷ rest

unfoldable pub render_label : Text × Text → Text
unfolding escape_into
render_label (k, v) = k ++ (b'=' ∷ quote ∷ (escape_into v ++ (quote ∷ [])))

-- The labels behind the first one, each behind its comma.
unfoldable pub render_others : List (Text × Text) → Text
unfolding render_label
render_others [] = []
render_others (x ∷ xs) = b',' ∷ (render_label x ++ render_others xs)

unfoldable pub render_labels : List (Text × Text) → Text
unfolding render_label render_others
render_labels [] = []
render_labels (x ∷ xs) = b'{' ∷ (render_label x ++ (render_others xs ++ (b'}' ∷ [])))

unfoldable pub without_key : Text → List (Text × Text) → List (Text × Text)
without_key k [] = []
without_key k ((k', v) ∷ labels) =
    let rest = without_key k labels in if text_eq k' k then rest else (k', v) ∷ rest

unfoldable pub append_label : List (Text × Text) → Text → Text → List (Text × Text)
unfolding without_key sort
append_label src k v = sort (without_key k src ++ ((k, v) ∷ []))

-- `writeln!(out, "{name}{labels} {v}")`
unfoldable pub line : Text → List (Text × Text) → Text → Text
unfolding render_labels
line name labels v = name ++ (render_labels labels ++ (b' ' ∷ (v ++ (newline ∷ []))))

abbrev pub le_label : Text
le_label = b'l' ∷ b'e' ∷ []

abbrev pub inf : Text
inf = b'+' ∷ b'I' ∷ b'n' ∷ b'f' ∷ []

abbrev pub bucket_suffix : Text
bucket_suffix = b'_' ∷ b'b' ∷ b'u' ∷ b'c' ∷ b'k' ∷ b'e' ∷ b't' ∷ []

abbrev pub sum_suffix : Text
sum_suffix = b'_' ∷ b's' ∷ b'u' ∷ b'm' ∷ []

abbrev pub count_suffix : Text
count_suffix = b'_' ∷ b'c' ∷ b'o' ∷ b'u' ∷ b'n' ∷ b't' ∷ []

-- `format_float` is an argument: the text of an f64.
module _ {F : Type 0} (format_float : F → Text) where
  -- A bound with no slot beside it has the count 0.
  unfoldable pub bucket_lines : Text → List (Text × Text) → List F → List ℕ → Text
  unfolding line append_label digits
  bucket_lines name labels [] slots = []
  bucket_lines name labels (bound ∷ bounds) [] =
      line (name ++ bucket_suffix) (append_label labels le_label (format_float bound)) (digits 20 0)
      ++ bucket_lines name labels bounds []
  bucket_lines name labels (bound ∷ bounds) (slot ∷ slots) =
      line (name ++ bucket_suffix) (append_label labels le_label (format_float bound))
        (digits 20 slot)
      ++ bucket_lines name labels bounds slots

  unfoldable pub histogram_lines : Text → List (Text × Text) → HistogramState F → Text
  unfolding bucket_lines line append_label digits
  histogram_lines name labels h =
      bucket_lines name labels h.bounds h.bucket_counts
      ++ (line (name ++ bucket_suffix) (append_label labels le_label inf) (digits 20 h.count)
          ++ (line (name ++ sum_suffix) labels (format_float h.sum)
              ++ line (name ++ count_suffix) labels (digits 20 h.count)))

  unfoldable pub lines_of : SeriesKind → Text → List (Text × Text) → SeriesState F → Text
  unfolding line histogram_lines digits
  lines_of counter name labels s = line name labels (digits 20 s.counter)
  lines_of gauge_u64 name labels s = line name labels (digits 20 s.gauge_u64)
  lines_of gauge_f64 name labels s = line name labels (format_float s.gauge_f64)
  lines_of histogram name labels s = histogram_lines name labels s.histogram

  unfoldable pub render_series : Text → SeriesKey → SeriesState F → Text
  unfolding lines_of
  render_series name key s = lines_of s.kind name key.labels s
