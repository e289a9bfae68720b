-- ===== src/Batch/Worker/Map.antt =====
-- The map of partitions: what is found behind a removal and an insertion.
use obs.Prelude.{
  ◌≡◌, refl, sym, ap, ◌∙◌, inl, inr, true, false, Bool-cases, Option, none, some, List, [], ◌∷◌,
  if◌then◌else◌,
}
use obs.Batch.Worker.State.{BatchBackend, IsKeyed, Partition, opt_eq, find, delete}

module _ {E K Body : Type 0} (b : BatchBackend E K Body) (keyed : IsKeyed b) where
  pub opt_eq→eq : (j k : Option K) → opt_eq b j k ≡ true → j ≡ k
  unfolding opt_eq
  opt_eq→eq none none h = refl
  opt_eq→eq none (some k) h = cc
  opt_eq→eq (some j) none h = cc
  opt_eq→eq (some j) (some k) h = ap some (keyed.key_eq→eq j k h)

  pub opt_eq_refl : (k : Option K) → opt_eq b k k ≡ true
  unfolding opt_eq
  opt_eq_refl none = refl
  opt_eq_refl (some k) = keyed.key_eq_refl k

  -- A key that is not `k` is not `k` under another name either.
  opt_eq_apart :
      (i j k : Option K) → opt_eq b i k ≡ false → opt_eq b i j ≡ true → opt_eq b k j ≡ false
  opt_eq_apart i j k apart same = elim (Bool-cases (opt_eq b k j)) [
    | inr e ↦ e
    | inl e ↦
        let one : i ≡ k = opt_eq→eq i j same ∙ sym (opt_eq→eq k j e) in
        let clash : opt_eq b k k ≡ false = rw one at apart in absurd (cc (clash, opt_eq_refl k))
  ]

  pub find-key :
      (k : Option K) (ps : List (Partition E K)) {p : Partition E K}
      → find b k ps ≡ some p
      → p.key ≡ k
  unfolding find
  find-key k [] h = cc
  find-key k (q ∷ ps) {p} h = elim (Bool-cases (opt_eq b q.key k)) [
    | inl e ↦
        let same : some q ≡ some p = rw (find, e) at h in
        let fields : q ≡ p = cc in rw (← fields) (opt_eq→eq q.key k e)
    | inr e ↦ find-key k ps (rw (find, e) at h)
  ]

  pub find-delete :
      (j k : Option K) (ps : List (Partition E K))
      → find b j (delete b k ps) ≡ (if opt_eq b k j then none else find b j ps)
  unfolding find delete
  find-delete j k [] = elim (Bool-cases (opt_eq b k j)) [ inl e ↦ rw e refl | inr e ↦ rw e refl ]
  find-delete j k (p ∷ ps) = elim (Bool-cases (opt_eq b p.key k)) [
    | inl e ↦ elim (Bool-cases (opt_eq b p.key j)) [
      | inl f ↦
          let same : opt_eq b k j ≡ true = rw (← opt_eq→eq p.key k e) f in
          rw (delete, e, find, f) (find-delete j k ps ∙ rw same refl)
      | inr f ↦ rw (delete, e, find, f) (find-delete j k ps)
    ]
    | inr e ↦ elim (Bool-cases (opt_eq b p.key j)) [
      | inl f ↦ rw (delete, e, find, f, opt_eq_apart p.key j k e f) refl
      | inr f ↦ rw (delete, e, find, f) (find-delete j k ps)
    ]
  ]
