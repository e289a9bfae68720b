-- ===== src/Prom/Series.antt =====
-- crates/obs-prom/src/series.rs. `F` stands for f64, with its order and its sum as arguments.
pub mod Buckets
use obs.Prelude.{
  ℕ, ◌+◌, ◌-◌, ◌^◌, min, Bool, true, false, Option, List, [], ◌∷◌, map, Text, ltb, if◌then◌else◌,
}

pub data SeriesKind : Type 0 where
  counter gauge_u64 gauge_f64 histogram : SeriesKind

pub record SeriesKey : Type 0 where
  pub name : Text
  pub labels : List (Text × Text)

pub record HistogramState (F : Type 0) : Type 0 where
  pub bounds : List F
  pub bucket_counts : List ℕ
  pub sum : F
  pub count : ℕ

-- `unit` is a text of the schema; times are in one unit.
pub record SeriesState (F : Type 0) : Type 0 where
  pub kind : SeriesKind
  pub unit : Option Text
  pub counter : ℕ
  pub gauge_u64 : ℕ
  pub gauge_f64 : F
  pub histogram : HistogramState F
  pub last_update : ℕ

unfoldable pub saturating_add : ℕ → ℕ → ℕ
saturating_add a b = min (a + b) (2 ^ 64 - 1)

pub record Float (F : Type 0) : Type 0 where
  pub zero_f64 : F
  pub le : F → F → Bool
  pub add : F → F → F

module _ {F : Type 0} (f64 : Float F) where
  unfoldable pub fresh : SeriesKind → Option Text → ℕ → SeriesState F
  fresh kind unit now = record {
    kind = kind;
    unit = unit;
    counter = 0;
    gauge_u64 = 0;
    gauge_f64 = f64.zero_f64;
    histogram = record { bounds = []; bucket_counts = []; sum = f64.zero_f64; count = 0 };
    last_update = now;
  }

  -- The loop over the bounds, with the slots that stand beside them.
  unfoldable pub fill_slots : F → List F → List ℕ → List ℕ
  unfolding saturating_add
  fill_slots value [] slots = slots
  fill_slots value (bound ∷ bounds) [] = []
  fill_slots value (bound ∷ bounds) (slot ∷ slots) =
      (if f64.le value bound then saturating_add slot 1 else slot) ∷ fill_slots value bounds slots

  -- The layout is frozen at the first sample that brings one.
  unfoldable pub freeze : List F → HistogramState F → HistogramState F
  freeze bounds h = elim h.bounds [
    | [] ↦ record h { bounds = bounds; bucket_counts = map (λ b. 0) bounds }
    | b ∷ bs ↦ h
  ]

  unfoldable pub tally : F → HistogramState F → HistogramState F
  unfolding fill_slots saturating_add
  tally value h = record h {
    bucket_counts = fill_slots value h.bounds h.bucket_counts;
    sum = f64.add h.sum value;
    count = saturating_add h.count 1;
  }

  unfoldable pub record_sample : F → List F → HistogramState F → HistogramState F
  unfolding freeze tally
  record_sample value bounds h = tally value (freeze bounds h)

unfoldable pub is_idle : {F : Type 0} → ℕ → ℕ → SeriesState F → Bool
is_idle ttl now s = ltb ttl (now - s.last_update)
