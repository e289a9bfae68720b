-- ===== src/Prom/Render/Tests.antt =====
-- A line of a scrape, and the theorem on its labels at a concrete input.
use obs.Prelude.{◌≡◌, refl, true, some, List, [], ◌∷◌, ◌++◌, Text, All, length}
use obs.Prom.Render.{escape_into, render_label, render_others, render_labels, line, quote, newline}
use obs.Prom.Render.Read.{no_equals, read_labels, read_labels-render_labels}

-- The value has a quote and a line break.
abbrev labels : List (Text × Text)
labels = (b'k' ∷ [], quote ∷ newline ∷ []) ∷ (b'l' ∷ [], []) ∷ []

labels_have_names : All (λ kv. no_equals kv.0 ≡ true) labels
unfolding no_equals
labels_have_names = (refl, (refl, tt))

read_labels-render_labels_example :
    read_labels (length labels) (render_labels labels ++ (b' ' ∷ b'7' ∷ []))
    ≡ some (labels, b' ' ∷ b'7' ∷ [])
read_labels-render_labels_example = read_labels-render_labels labels (b'7' ∷ []) labels_have_names

counter_line :
    line (b'f' ∷ []) ((b'k' ∷ [], b'v' ∷ []) ∷ []) (b'7' ∷ [])
    ≡ b'f' ∷ b'{' ∷ b'k' ∷ b'=' ∷ quote ∷ b'v' ∷ quote ∷ b'}' ∷ b' ' ∷ b'7' ∷ newline ∷ []
unfolding line render_labels render_label render_others escape_into
counter_line = refl
