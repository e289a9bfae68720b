-- ===== src/Prom/Render/Read.antt =====
-- Reading the labels of a line back, by the grammar of the exposition format.
use obs.Prelude.{
  ℕ, zero, suc, ◌≡◌, refl, ◌∙◌, ap, Bool, true, false, ◌&&◌, not, Option, none, some, List, [], ◌∷◌,
  ◌++◌, append_assoc, Text, length, ◌==◌, if◌then◌else◌, All, arith,
}
use obs.Prom.Render.{
  escape_into, render_label, render_others, render_labels, quote, backslash, newline,
}

-- The name up to its `=`, and what is behind the quote that follows.
unfoldable pub read_name : Text → Option (Text × Text)
read_name [] = none
read_name (c ∷ cs) =
    let rest : Option (Text × Text) = elim (read_name cs) [
      | none ↦ none
      | some (k, s) ↦ some (c ∷ k, s)
    ] in
    if c == b'=' then some ([], cs) else rest

-- The value up to its closing quote, with its escapes undone.
unfoldable pub read_value : Bool → Text → Option (Text × Text)
read_value escaped [] = none
read_value true (c ∷ cs) = elim (read_value false cs) [
  | none ↦ none
  | some (v, s) ↦ some ((if c == b'n' then newline else c) ∷ v, s)
]
read_value false (c ∷ cs) =
    let on = read_value true cs in
    let rest : Option (Text × Text) = elim (read_value false cs) [
      | none ↦ none
      | some (v, s) ↦ some (c ∷ v, s)
    ] in
    if c == backslash then on else if c == quote then some ([], cs) else rest

unfoldable pub no_equals : Text → Bool
no_equals [] = true
no_equals (c ∷ cs) = not (c == b'=') && no_equals cs

unfoldable pub value_behind : Text → Text → Option ((Text × Text) × Text)
unfolding read_value
value_behind k [] = none
value_behind k (c ∷ s) =
    let found : Option ((Text × Text) × Text) = elim (read_value false s) [
      | none ↦ none
      | some (v, t) ↦ some ((k, v), t)
    ] in
    if c == quote then found else none

unfoldable pub read_label : Text → Option ((Text × Text) × Text)
unfolding read_name value_behind
read_label s = elim (read_name s) [ none ↦ none | some (k, t) ↦ value_behind k t ]

-- The labels behind the first one up to the closing brace, `n` at most.
unfoldable pub read_others : ℕ → Text → Option (List (Text × Text) × Text)
unfolding read_label
read_others zero s = none
read_others (suc n) [] = none
read_others (suc n) (c ∷ s) =
    let more : Option (List (Text × Text) × Text) = elim (read_label s) [
      | none ↦ none
      | some (x, t) ↦ elim (read_others n t) [ none ↦ none | some (xs, u) ↦ some (x ∷ xs, u) ]
    ] in
    if c == b'}' then some ([], s) else if c == b',' then more else none

unfoldable pub read_labels : ℕ → Text → Option (List (Text × Text) × Text)
unfolding read_label read_others
read_labels n [] = some ([], [])
read_labels n (c ∷ s) =
    let block : Option (List (Text × Text) × Text) = elim (read_label s) [
      | none ↦ none
      | some (x, t) ↦ elim (read_others n t) [ none ↦ none | some (xs, u) ↦ some (x ∷ xs, u) ]
    ] in
    if c == b'{' then block else some ([], c ∷ s)

read_name-append : (k s : Text) → no_equals k ≡ true → read_name (k ++ (b'=' ∷ s)) ≡ some (k, s)
unfolding read_name no_equals
read_name-append [] s h = refl
read_name-append (c ∷ k) s h = ground (arith, h, read_name-append k s)

read_value-escape_into :
    (v s : Text) → read_value false (escape_into v ++ (quote ∷ s)) ≡ some (v, s)
unfolding read_value escape_into
read_value-escape_into [] s = refl
read_value-escape_into (c ∷ v) s = ground (arith, read_value-escape_into v s)

read_label-render_label :
    (k v s : Text) → no_equals k ≡ true → read_label (render_label (k, v) ++ s) ≡ some ((k, v), s)
unfolding read_label render_label value_behind
read_label-render_label k v s h =
    rw
      (
        append_assoc k (b'=' ∷ quote ∷ (escape_into v ++ (quote ∷ []))) s,
        append_assoc (escape_into v) (quote ∷ []) s,
        read_label,
        read_name-append k (quote ∷ (escape_into v ++ (quote ∷ s))) h,
        read_value-escape_into v s,
      )
      refl

read_others-render_others :
    (labels : List (Text × Text)) (s : Text)
    → All (λ kv. no_equals kv.0 ≡ true) labels
    → read_others (suc (length labels)) (render_others labels ++ (b'}' ∷ s)) ≡ some (labels, s)
unfolding read_others render_others
read_others-render_others [] s h = refl
read_others-render_others ((k, v) ∷ labels) s h =
    rw
      (
        append_assoc (render_label (k, v)) (render_others labels) (b'}' ∷ s),
        read_label-render_label k v (render_others labels ++ (b'}' ∷ s)) (h.0),
        read_others-render_others labels s (h.1),
      )
      refl

shape :
    (x : Text × Text) (labels : List (Text × Text)) (s : Text)
    → render_labels (x ∷ labels) ++ s
      ≡ b'{' ∷ (render_label x ++ (render_others labels ++ (b'}' ∷ s)))
unfolding render_labels
shape x labels s =
    ap (λ t. b'{' ∷ t)
      (append_assoc (render_label x) (render_others labels ++ (b'}' ∷ [])) s
        ∙ ap (λ t. render_label x ++ t) (append_assoc (render_others labels) (b'}' ∷ []) s))

read_block :
    (k v : Text) (labels : List (Text × Text)) (s : Text)
    → All (λ kv. no_equals kv.0 ≡ true) ((k, v) ∷ labels)
    → read_labels
        (suc (length labels))
        (b'{' ∷ (render_label (k, v) ++ (render_others labels ++ (b'}' ∷ s))))
      ≡ some ((k, v) ∷ labels, s)
unfolding read_labels
read_block k v labels s h =
    rw
      (
        read_label-render_label k v (render_others labels ++ (b'}' ∷ s)) (h.0),
        read_others-render_others labels s (h.1),
      )
      refl

-- The labels of a line are read back from it, in their order and with whatever characters their
-- values hold, if no name has an equals sign; what is read of the line ends with its labels.
pub read_labels-render_labels :
    (labels : List (Text × Text)) (value : Text)
    → All (λ kv. no_equals kv.0 ≡ true) labels
    → read_labels (length labels) (render_labels labels ++ (b' ' ∷ value))
      ≡ some (labels, b' ' ∷ value)
unfolding read_labels render_labels
read_labels-render_labels [] value h = refl
read_labels-render_labels ((k, v) ∷ labels) value h =
    ap (read_labels (suc (length labels))) (shape (k, v) labels (b' ' ∷ value))
    ∙ read_block k v labels (b' ' ∷ value) h
