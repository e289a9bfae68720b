-- ===== src/Prom/Registry/Lookup.antt =====
-- Looking a series up after a change of the table.
use obs.Prelude.{
  ◌≡◌, refl, true, false, none, some, List, [], ◌∷◌, ◌++◌, Text, text_eq_refl, text_eq→eq, arith,
}
use obs.Prom.Series.{SeriesKey, SeriesState}
use obs.Prom.Registry.{labels_eq, key_eq, Table, get, modify}

labels_eq→eq : (xs ys : List (Text × Text)) → labels_eq xs ys ≡ true → xs ≡ ys
unfolding labels_eq
labels_eq→eq [] [] h = refl
labels_eq→eq [] (y ∷ ys) h = absurd (cc)
labels_eq→eq (x ∷ xs) [] h = absurd (cc)
labels_eq→eq ((k, v) ∷ xs) ((k', v') ∷ ys) h =
    ground (arith, h, text_eq→eq k k', text_eq→eq v v', labels_eq→eq xs ys)

labels_eq_refl : (xs : List (Text × Text)) → labels_eq xs xs ≡ true
unfolding labels_eq
labels_eq_refl [] = refl
labels_eq_refl ((k, v) ∷ xs) = rw (text_eq_refl k, text_eq_refl v) (labels_eq_refl xs)

pub key_eq_refl : (k : SeriesKey) → key_eq k k ≡ true
unfolding key_eq
key_eq_refl k = rw (text_eq_refl k.name) (labels_eq_refl k.labels)

pub key_eq→eq : (j k : SeriesKey) → key_eq j k ≡ true → j ≡ k
unfolding key_eq
key_eq→eq j k h = ground (arith, h, text_eq→eq j.name k.name, labels_eq→eq j.labels k.labels)

module _ {F : Type 0} where
  pub get-modify :
      (f : SeriesState F → SeriesState F) (key : SeriesKey) (s : SeriesState F) (table : Table F)
      → get key table ≡ some s
      → get key (modify f key table) ≡ some (f s)
  unfolding get modify
  get-modify f key s [] h = absurd (cc)
  get-modify f key s ((k, s') ∷ table) h = ground (arith, h, get-modify f key s table)

  pub get-modify_other :
      (f : SeriesState F → SeriesState F) (key other : SeriesKey) (table : Table F)
      → key_eq key other ≡ false
      → get other (modify f key table) ≡ get other table
  unfolding get modify
  get-modify_other f key other [] h = refl
  get-modify_other f key other ((k, s') ∷ table) h =
      ground (arith, h, key_eq→eq k key, get-modify_other f key other table h)

  pub get-modify-none :
      (f : SeriesState F → SeriesState F) (key k : SeriesKey) (table : Table F)
      → get k table ≡ none
      → get k (modify f key table) ≡ none
  unfolding get modify
  get-modify-none f key k [] h = refl
  get-modify-none f key k ((k', s) ∷ table) h = ground (arith, h, get-modify-none f key k table)

  pub get-append :
      (key : SeriesKey) (s : SeriesState F) (rivals table : Table F)
      → get key rivals ≡ some s
      → get key (rivals ++ table) ≡ some s
  unfolding get
  get-append key s [] table h = absurd (cc)
  get-append key s ((k, s') ∷ rivals) table h = ground (arith, h, get-append key s rivals table)
