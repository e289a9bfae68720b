-- ===== src/Prelude/Bounded.antt =====
-- A bounded channel that takes what it has room for.
use Prim.Native.Nat.{ℕ, zero, suc, ◌-◌, ◌≤◌, ◌<◌}
use mathlib.Core.Path.{◌≡◌, refl, sym, ap, ◌∙◌}
use mathlib.Core.List.{List, [], ◌∷◌, ◌++◌, append_assoc, append-nil}
use native.Mathlib.Omega.{arith}
use obs.Prelude.Lists.{length, take, length-append}

module _ {ℓ} {A : Type ℓ} where
  -- The channel after all of `xs` have been sent to it.
  unfoldable pub filled : ℕ → List A → List A → List A
  filled capacity queue xs = queue ++ take (capacity - length queue) xs

  take-nil : (n : ℕ) → take {A = A} n [] ≡ []
  take-nil zero = refl
  take-nil (suc n) = refl

  pub filled-nil : (capacity : ℕ) (queue : List A) → filled capacity queue [] ≡ queue
  unfolding filled
  filled-nil capacity queue =
      ap (λ t. queue ++ t) (take-nil (capacity - length queue)) ∙ append-nil queue

  pub filled-full :
      (capacity : ℕ) (queue xs : List A)
      → capacity ≤ length queue
      → filled capacity queue xs ≡ queue
  unfolding filled
  filled-full capacity queue xs full =
      let none_left : capacity - length queue ≡ 0 = omega (arith, full) in
      rw none_left (append-nil queue)

  pub filled-room :
      (capacity : ℕ) (queue : List A) (x : A) (xs : List A)
      → length queue < capacity
      → filled capacity (queue ++ (x ∷ [])) xs ≡ filled capacity queue (x ∷ xs)
  unfolding filled
  filled-room capacity queue x xs room =
      let left : capacity - length queue ≡ suc (capacity - length (queue ++ (x ∷ []))) =
        omega (arith, room, length-append queue (x ∷ [])) in
      append_assoc queue (x ∷ []) _ ∙ ap (λ n. queue ++ take n (x ∷ xs)) (sym left)
