-- ===== src/Prom/Series/Buckets.antt =====
-- What the buckets of a histogram count.
use obs.Prelude.{
  ℕ, suc, ◌+◌, ◌-◌, ◌^◌, min, ◌≡◌, refl, ap, ap₂, ◌∙◌, Bool, true, false, List, [], ◌∷◌, map,
  length, if◌then◌else◌, arith,
}
use obs.Prom.Series.{
  HistogramState, Float, fill_slots, freeze, tally, record_sample, saturating_add,
}

-- Counting stops at the largest u64.
abbrev pub capped : ℕ → ℕ
capped n = min n (2 ^ 64 - 1)

saturating_add-capped : (n : ℕ) → saturating_add (capped n) 1 ≡ capped (1 + n)
unfolding saturating_add
saturating_add-capped n = omega arith

shift : (k n : ℕ) → suc k + n ≡ k + (1 + n)
shift k n = omega arith

zero_plus : (n : ℕ) → 0 + n ≡ n
zero_plus n = omega arith

one_more : (n : ℕ) → n + (1 + 0) ≡ suc n
one_more n = omega arith

module _ {F : Type 0} (f64 : Float F) where
  -- Samples, each with the bounds that its schema has then.
  unfoldable pub record_samples : List (F × List F) → HistogramState F → HistogramState F
  unfolding record_sample
  record_samples [] h = h
  record_samples ((value, bounds) ∷ samples) h =
      record_samples samples (record_sample f64 value bounds h)

  -- `n` and the samples that are at most the bound.
  unfoldable pub count_le : ℕ → F → List (F × List F) → ℕ
  count_le n bound [] = n
  count_le n bound ((value, bounds) ∷ samples) =
      count_le (if f64.le value bound then 1 + n else n) bound samples

  fill_slots-counts :
      (value : F) (c : F → ℕ) (bs : List F)
      → fill_slots f64 value bs (map (λ b. capped (c b)) bs)
        ≡ map (λ b. capped (if f64.le value b then 1 + c b else c b)) bs
  unfolding fill_slots
  fill_slots-counts value c [] = refl
  fill_slots-counts value c (b ∷ bs) =
      ap₂ (λ x xs. x ∷ xs) (slot (f64.le value b)) (fill_slots-counts value c bs)
    where
      slot :
          (t : Bool)
          → (if t then saturating_add (capped (c b)) 1 else capped (c b))
            ≡ capped (if t then 1 + c b else c b)
      slot true = saturating_add-capped (c b)
      slot false = refl

  -- A histogram that has the layout `bs`, whose slots hold the counts `c`, and its total `n`.
  record Tallied (bs : List F) (c : F → ℕ) (n : ℕ) (h : HistogramState F) : Type 0 where
    layout : h.bounds ≡ bs
    slots : h.bucket_counts ≡ map (λ b. capped (c b)) bs
    total : h.count ≡ capped n

  tally-Tallied :
      (value : F) (bs : List F) (c : F → ℕ) (n : ℕ) (h : HistogramState F)
      → Tallied bs c n h
      → Tallied bs (λ x. if f64.le value x then 1 + c x else c x) (1 + n) (tally f64 value h)
  unfolding tally
  tally-Tallied value bs c n h t = record {
    layout = t.layout;
    slots = rw (t.layout, t.slots) (fill_slots-counts value c bs);
    total = rw (t.total) (saturating_add-capped n);
  }

  freeze-fixed :
      (bounds : List F) (b : F) (bs : List F) (h : HistogramState F)
      → h.bounds ≡ b ∷ bs
      → freeze f64 bounds h ≡ h
  unfolding freeze
  freeze-fixed bounds b bs h e = go h.bounds e
    where
      go :
          (xs : List F)
          → xs ≡ b ∷ bs
          → ◌≡◌ {A = HistogramState F}
              (elim xs as (λ x. HistogramState F) [
                | [] ↦ record h { bounds = bounds; bucket_counts = map (λ x. 0) bounds }
                | b' ∷ bs' ↦ h
              ])
              h
      go [] same = absurd (cc)
      go (x ∷ xs) same = refl

  freeze-first :
      (b : F) (bs : List F) (h : HistogramState F)
      → h.bounds ≡ []
      → freeze f64 (b ∷ bs) h ≡ record h { bounds = b ∷ bs; bucket_counts = map (λ x. 0) (b ∷ bs) }
  unfolding freeze
  freeze-first b bs h e = rw (freeze, e) refl

  record_samples-Tallied :
      (samples : List (F × List F)) (b : F) (bs : List F) (c : F → ℕ) (n : ℕ) (h : HistogramState F)
      → Tallied (b ∷ bs) c n h
      → Tallied
          (b ∷ bs)
          (λ x. count_le (c x) x samples)
          (length samples + n)
          (record_samples samples h)
  unfolding record_samples count_le
  record_samples-Tallied [] b bs c n h t = rw (zero_plus n) t
  record_samples-Tallied ((value, bounds) ∷ samples) b bs c n h t = rw (shift (length samples) n) (
      record_samples-Tallied samples b bs (λ x. if f64.le value x then 1 + c x else c x) (1 + n)
        (record_sample f64 value bounds h)
        (unfold record_sample in
          rw (freeze-fixed bounds b bs h t.layout) (tally-Tallied value (b ∷ bs) c n h t)))

  -- A histogram with its first sample takes the layout of that sample, whatever layouts come later;
  -- each slot then counts the samples at most its bound, and the total counts all samples, up to the
  -- largest u64.
  pub record_samples-counts :
      (value : F) (b : F) (bs : List F) (samples : List (F × List F)) (h : HistogramState F)
      → h.bounds ≡ []
      → h.count ≡ 0
      → let all = (value, b ∷ bs) ∷ samples in
        ((record_samples all h).bounds ≡ b ∷ bs)
        × ((record_samples all h).bucket_counts ≡ map (λ x. capped (count_le 0 x all)) (b ∷ bs))
        × ((record_samples all h).count ≡ capped (length all))
  unfolding record_samples count_le
  record_samples-counts value b bs samples h new start =
      let frozen = record h { bounds = b ∷ bs; bucket_counts = map (λ x. 0) (b ∷ bs) } in
      let first =
        tally-Tallied value (b ∷ bs) (λ x. 0) 0 frozen
          (record { layout = refl; slots = refl; total = start }) in
      let all =
        record_samples-Tallied samples b bs (λ x. if f64.le value x then 1 + 0 else 0) (1 + 0)
          (record_sample f64 value (b ∷ bs) h)
          (unfold record_sample in rw (freeze-first b bs h new) first) in
      (all.layout, all.slots, all.total ∙ ap capped (one_more (length samples)))
