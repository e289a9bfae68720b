-- ===== src/Prom/Registry.antt =====
-- crates/obs-prom/src/registry.rs, and the recordings of crates/obs-prom/src/sink.rs.
pub mod Lookup
pub mod Updates
pub mod Cap
use obs.Prelude.{
  ℕ, ◌+◌, ◌%◌, ◌^◌, Bool, true, false, not, ◌&&◌, ◌||◌, Option, none, some, List, [], ◌∷◌, ◌++◌,
  Text, text_eq, length, leb, if◌then◌else◌,
}
use obs.Prom.Series.{
  SeriesKind, counter, gauge_u64, gauge_f64, histogram, SeriesKey, SeriesState, saturating_add,
  Float, fresh, record_sample, is_idle,
}

unfoldable pub labels_eq : List (Text × Text) → List (Text × Text) → Bool
labels_eq [] [] = true
labels_eq [] (y ∷ ys) = false
labels_eq (x ∷ xs) [] = false
labels_eq ((k, v) ∷ xs) ((k', v') ∷ ys) = text_eq k k' && (text_eq v v' && labels_eq xs ys)

-- The derived `Eq`.
unfoldable pub key_eq : SeriesKey → SeriesKey → Bool
unfolding labels_eq
key_eq j k = text_eq j.name k.name && labels_eq j.labels k.labels

abbrev pub Table : Type 0 → Type 0
Table F = List (SeriesKey × SeriesState F)

unfoldable pub get : {F : Type 0} → SeriesKey → Table F → Option (SeriesState F)
unfolding key_eq
get key [] = none
get key ((k, s) ∷ table) = let rest = get key table in if key_eq k key then some s else rest

unfoldable pub modify :
    {F : Type 0} → (SeriesState F → SeriesState F) → SeriesKey → Table F → Table F
unfolding key_eq
modify f key [] = []
modify f key ((k, s) ∷ table) =
    let rest = modify f key table in if key_eq k key then (k, f s) ∷ table else (k, s) ∷ rest

-- `entry(key).or_insert_with(…)`
unfoldable pub or_insert : {F : Type 0} → SeriesKey → SeriesState F → Table F → Table F
unfolding get
or_insert key state table = elim (get key table) [ some s ↦ table | none ↦ (key, state) ∷ table ]

unfoldable pub keep_live : {F : Type 0} → ℕ → ℕ → Table F → Table F
unfolding is_idle
keep_live ttl now [] = []
keep_live ttl now ((k, s) ∷ table) =
    let rest = keep_live ttl now table in if is_idle ttl now s then rest else (k, s) ∷ rest

unfoldable pub count_idle : {F : Type 0} → ℕ → ℕ → Table F → ℕ
unfolding is_idle
count_idle ttl now [] = 0
count_idle ttl now ((k, s) ∷ table) =
    let rest = count_idle ttl now table in if is_idle ttl now s then rest + 1 else rest

pub record PromConfig (F : Type 0) : Type 0 where
  pub max_series : ℕ
  pub idle_ttl : Option ℕ
  pub default_histogram_bounds : List F

-- `events` has the metric names of the self-events on a breach of the cap.
pub record Inner (F : Type 0) : Type 0 where
  pub config : PromConfig F
  pub series : Table F
  pub dropped : ℕ
  pub evicted_idle : ℕ
  pub cap_breach_notified : List Text
  pub events : List Text

unfoldable pub new : {F : Type 0} → PromConfig F → Inner F
new config = record {
  config = config;
  series = [];
  dropped = 0;
  evicted_idle = 0;
  cap_breach_notified = [];
  events = [];
}

unfoldable pub evict_idle : {F : Type 0} → ℕ → Inner F → Inner F
unfolding keep_live count_idle
evict_idle now i = elim i.config.idle_ttl [
  | none ↦ i
  | some ttl ↦ record i {
    series = keep_live ttl now i.series;
    evicted_idle = (i.evicted_idle + count_idle ttl now i.series) % 2 ^ 64;
  }
]

unfoldable pub mentions : Text → List Text → Bool
mentions name [] = false
mentions name (n ∷ names) = text_eq n name || mentions name names

unfoldable pub refuse : {F : Type 0} → SeriesKey → Inner F → Inner F
unfolding mentions
refuse key i =
    let i' = record i { dropped = (i.dropped + 1) % 2 ^ 64 } in
    if mentions key.name i.cap_breach_notified then i' else record i' {
      cap_breach_notified = key.name ∷ i.cap_breach_notified;
      events = i.events ++ (key.name ∷ []);
    }

-- What `get_or_insert` gives: the state that the table holds, or a fresh state with whether the entry
-- took it, or nothing.
pub data Handle (F : Type 0) : Type 0 where
  existing refused : Handle F
  created : SeriesState F → Bool → Handle F

unfoldable pub is_vacant : {F : Type 0} → SeriesKey → Table F → Bool
unfolding get
is_vacant key table = elim (get key table) [ none ↦ true | some s ↦ false ]

module _ {F : Type 0} (f64 : Float F) where
  -- `rivals` are the series that other threads insert between the look at the table and the entry.
  -- The state that is returned is the fresh one, also where the entry holds another.
  unfoldable pub get_or_insert :
      SeriesKey → SeriesKind → Option Text → ℕ → Table F → Inner F → Handle F × Inner F
  unfolding get or_insert is_vacant refuse fresh
  get_or_insert key kind unit now rivals i = elim (get key i.series) [
    | some s ↦ (existing, i)
    | none ↦ if leb i.config.max_series (length i.series) then (refused, refuse key i) else (
      created (fresh f64 kind unit now) (is_vacant key (rivals ++ i.series)),
      record i { series = or_insert key (fresh f64 kind unit now) (rivals ++ i.series) },
    )
  ]

  -- A recording on the state that the handle leads to: the table sees it only if it holds that state.
  unfoldable pub record_on :
      (SeriesState F → SeriesState F) → SeriesKey → Handle F × Inner F → Inner F
  unfolding modify
  record_on f key (refused, i) = i
  record_on f key (existing, i) = record i { series = modify f key i.series }
  record_on f key (created s true, i) = record i { series = modify f key i.series }
  record_on f key (created s false, i) = i

  unfoldable pub update :
      (SeriesState F → SeriesState F)
      → SeriesKey
      → SeriesKind
      → Option Text
      → ℕ
      → Table F
      → Inner F
      → Inner F
  unfolding get_or_insert record_on
  update f key kind unit now rivals i = record_on f key (get_or_insert key kind unit now rivals i)

  unfoldable pub add_counter : ℕ → ℕ → SeriesState F → SeriesState F
  unfolding saturating_add
  add_counter value now s = record s { counter = saturating_add s.counter value; last_update = now }

  unfoldable pub set_gauge_u64 : ℕ → ℕ → SeriesState F → SeriesState F
  set_gauge_u64 value now s = record s { gauge_u64 = value; last_update = now }

  unfoldable pub set_gauge_f64 : F → ℕ → SeriesState F → SeriesState F
  set_gauge_f64 value now s = record s { gauge_f64 = value; last_update = now }

  unfoldable pub add_sample : F → List F → ℕ → SeriesState F → SeriesState F
  unfolding record_sample
  add_sample value bounds now s = record s {
    histogram = record_sample f64 value bounds s.histogram;
    last_update = now;
  }
