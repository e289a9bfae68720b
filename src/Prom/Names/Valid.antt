-- ===== src/Prom/Names/Valid.antt =====
-- The names that the sink makes are names of the exposition format.
use obs.Prelude.{
  ◌≡◌, refl, sym, ◌∙◌, ap, ap₂, inl, inr, Bool, true, false, ◌&&◌, none, some, Option-cases, [],
  ◌∷◌, ◌++◌, append_assoc, append-nil, Text, arith,
}
use obs.Prom.Names.{
  is_start, is_rest, sanitize_rest, sanitize_metric_name, strip_prefix, reverse, strip_suffix,
  total_suffix, count_suffix, counter_suffix, strip_alias, counter_metric_name,
}

unfoldable pub all_rest : Text → Bool
all_rest [] = true
all_rest (c ∷ cs) = is_rest c && all_rest cs

-- `[a-zA-Z_:][a-zA-Z0-9_:]*`
unfoldable pub is_metric_name : Text → Bool
unfolding all_rest
is_metric_name [] = false
is_metric_name (c ∷ cs) = is_start c && all_rest cs

underscore : is_rest b'_' ≡ true
unfolding is_rest
underscore = refl

underscore_start : is_start b'_' ≡ true
unfolding is_start
underscore_start = refl

sanitize_rest-all_rest : (s : Text) → all_rest (sanitize_rest s) ≡ true
unfolding sanitize_rest all_rest
sanitize_rest-all_rest [] = refl
sanitize_rest-all_rest (c ∷ cs) = ground (arith, sanitize_rest-all_rest cs, underscore)

pub sanitize_metric_name-valid : (s : Text) → is_metric_name (sanitize_metric_name s) ≡ true
unfolding sanitize_metric_name is_metric_name
sanitize_metric_name-valid [] = refl
sanitize_metric_name-valid (c ∷ cs) = ground (arith, sanitize_rest-all_rest cs, underscore_start)

sanitize_rest-fixed : (s : Text) → all_rest s ≡ true → sanitize_rest s ≡ s
unfolding sanitize_rest all_rest
sanitize_rest-fixed [] h = refl
sanitize_rest-fixed (c ∷ cs) h = ground (arith, h, sanitize_rest-fixed cs)

sanitize_metric_name-fixed : (s : Text) → is_metric_name s ≡ true → sanitize_metric_name s ≡ s
unfolding sanitize_metric_name is_metric_name
sanitize_metric_name-fixed [] h = absurd (cc)
sanitize_metric_name-fixed (c ∷ cs) h = ground (arith, h, sanitize_rest-fixed cs)

reverse-append : (xs ys : Text) → reverse (xs ++ ys) ≡ reverse ys ++ reverse xs
unfolding reverse
reverse-append [] ys = sym (append-nil (reverse ys))
reverse-append (x ∷ xs) ys =
    rw (reverse-append xs ys) (append_assoc (reverse ys) (reverse xs) (x ∷ []))

reverse-reverse : (xs : Text) → reverse (reverse xs) ≡ xs
unfolding reverse
reverse-reverse [] = refl
reverse-reverse (x ∷ xs) =
    reverse-append (reverse xs) (x ∷ []) ∙ ap (λ ys. x ∷ ys) (reverse-reverse xs)

strip_prefix-append : (p s : Text) → strip_prefix p (p ++ s) ≡ some s
unfolding strip_prefix
strip_prefix-append [] s = refl
strip_prefix-append (c ∷ cs) s = ground (arith, strip_prefix-append cs s)

strip_prefix-some : (p s t : Text) → strip_prefix p s ≡ some t → s ≡ p ++ t
unfolding strip_prefix
strip_prefix-some [] s t h = ground (arith, h)
strip_prefix-some (c ∷ cs) [] t h = absurd (cc)
strip_prefix-some (c ∷ cs) (d ∷ ds) t h = ground (arith, h, strip_prefix-some cs ds t)

strip_suffix-append : (p s : Text) → strip_suffix p (s ++ p) ≡ some s
unfolding strip_suffix
strip_suffix-append p s =
    rw
      (
        strip_suffix,
        reverse-append s p,
        strip_prefix-append (reverse p) (reverse s),
        reverse-reverse s,
      )
      refl

strip_suffix-some : (p s t : Text) → strip_suffix p s ≡ some t → s ≡ t ++ p
unfolding strip_suffix
strip_suffix-some p s t h = elim (Option-cases (strip_prefix (reverse p) (reverse s))) [
  | inl e ↦ let fails : strip_suffix p s ≡ none = rw (strip_suffix, e) refl in absurd (cc)
  | inr (r, e) ↦
      let finds : strip_suffix p s ≡ some (reverse r) = rw (strip_suffix, e) refl in
      let same : some (reverse r) ≡ some t = sym finds ∙ h in
      sym (reverse-reverse s)
      ∙ ap reverse (strip_prefix-some (reverse p) (reverse s) r e)
      ∙ reverse-append (reverse p) r
      ∙ ap₂ ◌++◌ (ground (arith, same)) (reverse-reverse p)
]

all_rest-append : (xs ys : Text) → all_rest (xs ++ ys) ≡ (all_rest xs && all_rest ys)
unfolding all_rest
all_rest-append [] ys = refl
all_rest-append (x ∷ xs) ys = ground (arith, all_rest-append xs ys)

total_is_name : is_metric_name total_suffix ≡ true
unfolding is_metric_name is_start is_rest
total_is_name = refl

total_is_rest : all_rest total_suffix ≡ true
unfolding all_rest is_rest is_start
total_is_rest = refl

is_metric_name-total :
    (t p : Text) → is_metric_name (t ++ p) ≡ true → is_metric_name (t ++ total_suffix) ≡ true
unfolding is_metric_name
is_metric_name-total [] p h = total_is_name
is_metric_name-total (c ∷ cs) p h =
    ground (arith, h, all_rest-append cs p, all_rest-append cs total_suffix, total_is_rest)

-- What is left of a name when its alias is stripped is the front of the name.
strip_alias-front : (s : Text) → (p : Text) × (s ≡ strip_alias s ++ p)
unfolding strip_alias
strip_alias-front s = elim (Option-cases (strip_suffix count_suffix s)) [
  | inr (t, e) ↦ rw (strip_alias, e) (count_suffix, strip_suffix-some count_suffix s t e)
  | inl e ↦ elim (Option-cases (strip_suffix counter_suffix s)) [
    | inr (t, e') ↦
        rw (strip_alias, e, e') (counter_suffix, strip_suffix-some counter_suffix s t e')
    | inl e' ↦ rw (strip_alias, e, e') ([], sym (append-nil s))
  ]
]

ends_valid :
    (s : Text) → is_metric_name s ≡ true → is_metric_name (strip_alias s ++ total_suffix) ≡ true
ends_valid s h =
    let (p, e) = strip_alias-front s in
    is_metric_name-total (strip_alias s) p (ap is_metric_name (sym e) ∙ h)

-- A name that is valid and ends in `_total`.
pub IsCounterName : Text → Type 0
IsCounterName s = (is_metric_name s ≡ true) × (t : Text) × (s ≡ t ++ total_suffix)

counter-base :
    (raw t : Text)
    → strip_suffix total_suffix (sanitize_metric_name raw) ≡ some t
    → counter_metric_name raw ≡ sanitize_metric_name raw
unfolding counter_metric_name
counter-base raw t e = rw (counter_metric_name, e) refl

counter-alias :
    (raw : Text)
    → strip_suffix total_suffix (sanitize_metric_name raw) ≡ none
    → counter_metric_name raw ≡ strip_alias (sanitize_metric_name raw) ++ total_suffix
unfolding counter_metric_name
counter-alias raw e = rw (counter_metric_name, e) refl

counter_metric_name-IsCounterName : (raw : Text) → IsCounterName (counter_metric_name raw)
unfolding IsCounterName
counter_metric_name-IsCounterName raw =
    let base = sanitize_metric_name raw in
    let valid = sanitize_metric_name-valid raw in
    elim (Option-cases (strip_suffix total_suffix base)) [
      | inr (t, e) ↦ rw (counter-base raw t e) (valid, t, strip_suffix-some total_suffix base t e)
      | inl e ↦ rw (counter-alias raw e) (ends_valid base valid, strip_alias base, refl)
    ]

-- The name that the sink gives to a counter is a valid one of the exposition format, ends in `_total`,
-- and is the name of itself.
pub counter_metric_name-fixed :
    (raw : Text)
    → IsCounterName (counter_metric_name raw)
      × (counter_metric_name (counter_metric_name raw) ≡ counter_metric_name raw)
unfolding IsCounterName
counter_metric_name-fixed raw =
    let name = counter_metric_name raw in
    let (valid, t, ends) = counter_metric_name-IsCounterName raw in
    let same = sanitize_metric_name-fixed name valid in
    let found = ap (strip_suffix total_suffix) (same ∙ ends) ∙ strip_suffix-append total_suffix t in
    ((valid, t, ends), counter-base name t found ∙ same)
