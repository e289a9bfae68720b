-- ===== src/Prom/Deliver/Labels.antt =====
-- A series is the same in whatever order a map gives its labels.
use obs.Prelude.{
  ℕ, ◌≡◌, refl, ◌∙◌, ap, ap₂, true, false, Option, none, some, List, [], ◌∷◌, Text, text_eq_refl,
  text_eq→eq, arith,
}
use mathlib.Core.List.{Permᴰ}
use obs.Prom.Series.{Float}
use obs.Prom.Registry.{Inner}
use obs.Prom.Deliver.{text_le, label_le, insert, sort, Call, calls, deliver}

text_le_total : (xs ys : Text) → text_le xs ys ≡ false → text_le ys xs ≡ true
unfolding text_le
text_le_total [] ys h = absurd (cc)
text_le_total (x ∷ xs) [] h = refl
text_le_total (x ∷ xs) (y ∷ ys) h = ground (arith, h, text_le_total xs ys)

text_le_antisym : (xs ys : Text) → text_le xs ys ≡ true → text_le ys xs ≡ true → xs ≡ ys
unfolding text_le
text_le_antisym [] [] h h' = refl
text_le_antisym [] (y ∷ ys) h h' = absurd (cc)
text_le_antisym (x ∷ xs) [] h h' = absurd (cc)
text_le_antisym (x ∷ xs) (y ∷ ys) h h' = ground (arith, h, h', text_le_antisym xs ys)

text_le_trans :
    (xs ys zs : Text) → text_le xs ys ≡ true → text_le ys zs ≡ true → text_le xs zs ≡ true
unfolding text_le
text_le_trans [] ys zs h h' = refl
text_le_trans (x ∷ xs) [] zs h h' = absurd (cc)
text_le_trans (x ∷ xs) (y ∷ ys) [] h h' = absurd (cc)
text_le_trans (x ∷ xs) (y ∷ ys) (z ∷ zs) h h' = ground (arith, h, h', text_le_trans xs ys zs)

label_le_total : (a b : Text × Text) → label_le a b ≡ false → label_le b a ≡ true
unfolding label_le
label_le_total (k, v) (k', v') h = ground (
  arith,
  h,
  text_eq→eq k k',
  text_eq→eq k' k,
  text_eq_refl k,
  text_le_total v v',
  text_le_total k k',
)

label_le_antisym : (a b : Text × Text) → label_le a b ≡ true → label_le b a ≡ true → a ≡ b
unfolding label_le
label_le_antisym (k, v) (k', v') h h' = ground (
  arith,
  h,
  h',
  text_eq→eq k k',
  text_eq→eq k' k,
  text_eq_refl k,
  text_le_antisym v v',
  text_le_antisym k k',
)

label_le_trans :
    (a b c : Text × Text) → label_le a b ≡ true → label_le b c ≡ true → label_le a c ≡ true
unfolding label_le
label_le_trans (k, v) (k', v') (k'', v'') h h' = ground (
  arith,
  h,
  h',
  text_eq→eq k k',
  text_eq→eq k' k'',
  text_eq→eq k k'',
  text_eq_refl k,
  text_eq_refl k',
  text_le_antisym k k',
  text_le_trans k k' k'',
  text_le_trans v v' v'',
)

insert-insert :
    (a b : Text × Text) (l : List (Text × Text)) → insert a (insert b l) ≡ insert b (insert a l)
unfolding insert
insert-insert a b [] = ground (arith, label_le_total a b, label_le_total b a, label_le_antisym a b)
insert-insert a b (c ∷ l) = ground (
  arith,
  insert-insert a b l,
  label_le_total a b,
  label_le_antisym a b,
  label_le_trans a b c,
  label_le_trans b a c,
  label_le_total a c,
  label_le_total b c,
)

sort-Perm : {xs ys : List (Text × Text)} → Permᴰ xs ys → sort xs ≡ sort ys
unfolding sort
sort-Perm Permᴰ.nil = refl
sort-Perm (Permᴰ.cons e p) = ap₂ insert e (sort-Perm p)
sort-Perm (Permᴰ.swap {a = a} {b = b} {l = l} e e') =
    insert-insert a b (sort l) ∙ ap₂ (λ x y. insert x (insert y (sort l))) e' e
sort-Perm (Permᴰ.trans p q) = sort-Perm p ∙ sort-Perm q

-- The series of an envelope do not depend on the order in which its map gives the labels.
pub deliver-Perm :
    {F : Type 0} (f64 : Float F) (classic : List F) (now : ℕ) (full_name : Text)
    (labels labels' : List (Text × Text)) (cs : Option (List (Call F))) (i : Inner F)
    → Permᴰ labels labels'
    → deliver f64 classic now full_name labels cs i ≡ deliver f64 classic now full_name labels' cs i
unfolding deliver
deliver-Perm f64 classic now full_name labels labels' none i p = refl
deliver-Perm f64 classic now full_name labels labels' (some cs) i p =
    ap
      (λ ls.
        calls f64 classic now cs (record { prefix = full_name; labels = ls; extra_attrs = [] }) i)
      (sort-Perm p)
