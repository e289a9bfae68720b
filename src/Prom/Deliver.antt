-- ===== src/Prom/Deliver.antt =====
-- `deliver` of crates/obs-prom/src/sink.rs: the recordings that an envelope makes.
pub mod Labels
pub mod Tidy
use obs.Prelude.{
  ℕ, ◌+◌, Bool, true, false, Option, none, some, List, [], ◌∷◌, ◌++◌, Text, text_eq, ltb, ◌==◌,
  if◌then◌else◌,
}
use obs.Prom.Series.{
  SeriesKind, counter, gauge_u64, gauge_f64, histogram, SeriesKey, SeriesState, Float,
}
use obs.Prom.Registry.{Inner, Table, update, add_counter, set_gauge_u64, set_gauge_f64, add_sample}
use obs.Prom.Names.{sanitize_metric_name, counter_metric_name}

-- The derived orders of a text and of a pair of texts.
unfoldable pub text_le : Text → Text → Bool
text_le [] ys = true
text_le (x ∷ xs) [] = false
text_le (x ∷ xs) (y ∷ ys) = let rest = text_le xs ys in if x == y then rest else ltb x y

unfoldable pub label_le : Text × Text → Text × Text → Bool
unfolding text_le
label_le (k, v) (k', v') = if text_eq k k' then text_le v v' else text_le k k'

-- `sort`, which gives the one ordered list of the same labels.
unfoldable pub insert : Text × Text → List (Text × Text) → List (Text × Text)
unfolding label_le
insert x [] = x ∷ []
insert x (y ∷ ys) = let rest = insert x ys in if label_le x y then x ∷ y ∷ ys else y ∷ rest

unfoldable pub sort : List (Text × Text) → List (Text × Text)
unfolding insert
sort [] = []
sort (x ∷ xs) = insert x (sort xs)

-- `dedup_by` on the keys: of neighbours with the same key the first one stays.
unfoldable pub dedup_after : Text → List (Text × Text) → List (Text × Text)
dedup_after k [] = []
dedup_after k ((k', v) ∷ labels) =
    let kept = dedup_after k' labels in
    let dropped = dedup_after k labels in if text_eq k k' then dropped else (k', v) ∷ kept

unfoldable pub dedup : List (Text × Text) → List (Text × Text)
unfolding dedup_after
dedup [] = []
dedup ((k, v) ∷ labels) = (k, v) ∷ dedup_after k labels

pub record Emitter : Type 0 where
  pub prefix : Text
  pub labels : List (Text × Text)
  pub extra_attrs : List (Text × Text)

unfoldable pub metric_name : SeriesKind → Text → Text
metric_name counter raw = counter_metric_name raw
metric_name gauge_u64 raw = sanitize_metric_name raw
metric_name gauge_f64 raw = sanitize_metric_name raw
metric_name histogram raw = sanitize_metric_name raw

unfoldable pub compose_key : Emitter → Text → SeriesKind → SeriesKey
unfolding metric_name sort dedup
compose_key e instrument kind = record {
  name = metric_name kind (e.prefix ++ (b'.' ∷ instrument));
  labels = dedup (sort (e.labels ++ e.extra_attrs));
}

-- The calls that the generated `project_metrics` of a schema makes on the emitter.
pub data Call (F : Type 0) : Type 0 where
  record_counter record_gauge_u64 : Text → ℕ → Option Text → Call F
  record_gauge_f64 : Text → F → Option Text → Call F
  record_histogram : Text → F → Option Text → List F → Call F
  with_attributes : List (Text × Text) → Call F

-- The bounds of the schema, or those of the registry, or the classic ones.
unfoldable pub buckets : {F : Type 0} → List F → List F → List F → List F
buckets classic defaults (b ∷ bs) = b ∷ bs
buckets classic (b ∷ bs) [] = b ∷ bs
buckets classic [] [] = classic

module _ {F : Type 0} (f64 : Float F) (classic : List F) (now : ℕ) where
  unfoldable pub insert_series :
      (SeriesState F → SeriesState F)
      → Text
      → SeriesKind
      → Option Text
      → Emitter
      → Inner F
      → Inner F
  unfolding update compose_key
  insert_series f instrument kind unit e i =
      update f64 f (compose_key e instrument kind) kind unit now [] i

  unfoldable pub call : Call F → Emitter → Inner F → Emitter × Inner F
  unfolding insert_series add_counter set_gauge_u64 set_gauge_f64 add_sample buckets
  call (record_counter instrument value unit) e i =
      (e, insert_series (add_counter f64 value now) instrument counter unit e i)
  call (record_gauge_u64 instrument value unit) e i =
      (e, insert_series (set_gauge_u64 f64 value now) instrument gauge_u64 unit e i)
  call (record_gauge_f64 instrument value unit) e i =
      (e, insert_series (set_gauge_f64 f64 value now) instrument gauge_f64 unit e i)
  call (record_histogram instrument value unit bounds) e i = (
    e,
    insert_series
        (add_sample f64 value (buckets classic i.config.default_histogram_bounds bounds) now)
        instrument histogram unit e i,
  )
  call (with_attributes attrs) e i = (record e { extra_attrs = e.extra_attrs ++ attrs }, i)

  unfoldable pub calls : List (Call F) → Emitter → Inner F → Inner F
  unfolding call
  calls [] e i = i
  calls (c ∷ cs) e i = let (e', i') = call c e i in calls cs e' i'

  -- `none` stands for an envelope with no schema.
  unfoldable pub deliver : Text → List (Text × Text) → Option (List (Call F)) → Inner F → Inner F
  unfolding update add_counter counter_metric_name sort calls
  deliver full_name labels none i =
      update f64 (add_counter f64 1 now)
        (record {
          name = counter_metric_name (full_name ++ (b'.' ∷ b'c' ∷ b'o' ∷ b'u' ∷ b'n' ∷ b't' ∷ []));
          labels = [];
        })
        counter none now [] i
  deliver full_name labels (some cs) i =
      calls cs (record { prefix = full_name; labels = sort labels; extra_attrs = [] }) i
