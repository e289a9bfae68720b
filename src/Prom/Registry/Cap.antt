-- ===== src/Prom/Registry/Cap.antt =====
-- The table keeps to its cap.
use obs.Prelude.{
  ℕ, ◌+◌, ◌≤◌, ◌≡◌, refl, ap, ◌∙◌, ◌++◌, ◌||◌, text_eq, if◌then◌else◌, inl, inr, false, Bool-cases,
  Option-cases, length-append, Option, none, some, List, [], ◌∷◌, Text, length, leb, arith,
}
use obs.Prom.Series.{SeriesKind, SeriesKey, SeriesState, Float, fresh, is_idle}
use obs.Prom.Registry.{
  key_eq, Table, get, modify, keep_live, count_idle, PromConfig, Inner, new, evict_idle, mentions,
  refuse, update,
}
use obs.Prom.Registry.Updates.{update-existing, update-full, update-new}
use obs.Prom.Registry.Lookup.{get-modify-none}

abbrev pub Distinct : {F : Type 0} → Table F → Type 0
Distinct [] = Unit
Distinct ((k, s) ∷ table) = (get k table ≡ none) × Distinct table

abbrev pub Unique : List Text → Type 0
Unique [] = Unit
Unique (n ∷ names) = (mentions n names ≡ false) × Unique names

-- The name of a series that a recording is refused: it is in no row of a table that is full.
unfoldable pub refusal : {F : Type 0} → SeriesKey → Inner F → List Text
unfolding get
refusal key i = elim (get key i.series) [
  | some s ↦ []
  | none ↦ if leb i.config.max_series (length i.series) then key.name ∷ [] else []
]

-- The events about some refusals: each name once, at its first refusal.
unfoldable pub with_events : List Text → List Text → List Text
unfolding mentions
with_events events [] = events
with_events events (name ∷ names) =
    with_events (if mentions name events then events else events ++ (name ∷ [])) names

-- The table is within its cap and has no key twice; the names that were reported are those of the
-- events, each once.
pub record IsTidy {F : Type 0} (i : Inner F) : Type 0 where
  pub within_cap : length i.series ≤ i.config.max_series
  pub distinct : Distinct i.series
  pub notified_once : Unique i.cap_breach_notified
  pub notified_all : length i.events ≡ length i.cap_breach_notified
  pub notified_same : (name : Text) → mentions name i.events ≡ mentions name i.cap_breach_notified

mentions-snoc :
    (name new_name : Text) (names : List Text)
    → mentions name (names ++ (new_name ∷ [])) ≡ text_eq new_name name || mentions name names
unfolding mentions
mentions-snoc name new_name [] = refl
mentions-snoc name new_name (n ∷ names) = ground (arith, mentions-snoc name new_name names)

module _ {F : Type 0} where
  length-modify :
      (f : SeriesState F → SeriesState F) (key : SeriesKey) (table : Table F)
      → length (modify f key table) ≡ length table
  unfolding modify
  length-modify f key [] = refl
  length-modify f key ((k, s) ∷ table) = ground (arith, length-modify f key table)

  modify-Distinct :
      (f : SeriesState F → SeriesState F) (key : SeriesKey) (table : Table F)
      → Distinct table
      → Distinct (modify f key table)
  unfolding modify
  modify-Distinct f key [] d = d
  modify-Distinct f key ((k, s) ∷ table) d = elim (Bool-cases (key_eq k key)) [
    | inl e ↦ rw (e) d
    | inr e ↦ rw (e) (get-modify-none f key k table (d.0), modify-Distinct f key table (d.1))
  ]

  get-keep_live-none :
      (ttl now : ℕ) (k : SeriesKey) (table : Table F)
      → get k table ≡ none
      → get k (keep_live ttl now table) ≡ none
  unfolding get keep_live
  get-keep_live-none ttl now k [] h = refl
  get-keep_live-none ttl now k ((k', s) ∷ table) h =
      ground (arith, h, get-keep_live-none ttl now k table)

  keep_live-Distinct :
      (ttl now : ℕ) (table : Table F) → Distinct table → Distinct (keep_live ttl now table)
  unfolding keep_live
  keep_live-Distinct ttl now [] d = d
  keep_live-Distinct ttl now ((k, s) ∷ table) d = elim (Bool-cases (is_idle ttl now s)) [
    | inl e ↦ rw (e) (keep_live-Distinct ttl now table (d.1))
    | inr e ↦
        rw (e) (get-keep_live-none ttl now k table (d.0), keep_live-Distinct ttl now table (d.1))
  ]

  length-keep_live :
      (ttl now : ℕ) (table : Table F)
      → length (keep_live ttl now table) + count_idle ttl now table ≡ length table
  unfolding keep_live count_idle
  length-keep_live ttl now [] = omega arith
  length-keep_live ttl now ((k, s) ∷ table) = ground (arith, length-keep_live ttl now table)

  refuse-IsTidy : (key : SeriesKey) (i : Inner F) → IsTidy i → IsTidy (refuse key i)
  unfolding refuse
  refuse-IsTidy key i t = elim (Bool-cases (mentions key.name i.cap_breach_notified)) [
    | inl e ↦
        rw (refuse, e)
          record {
            within_cap = t.within_cap;
            distinct = t.distinct;
            notified_once = t.notified_once;
            notified_all = t.notified_all;
            notified_same = t.notified_same;
          }
    | inr e ↦
        rw (refuse, e)
          record {
            within_cap = t.within_cap;
            distinct = t.distinct;
            notified_once = (e, t.notified_once);
            notified_all = length-append i.events (key.name ∷ []) ∙ omega (arith, t.notified_all);
            notified_same = λ name.
                mentions-snoc name key.name i.events
                ∙ ap (λ m. text_eq key.name name || m) (t.notified_same name);
          }
  ]

  pub evict_idle-IsTidy : (now : ℕ) (i : Inner F) → IsTidy i → IsTidy (evict_idle now i)
  unfolding evict_idle
  evict_idle-IsTidy now i t = go i.config.idle_ttl refl
    where
      go : (ttl : Option ℕ) → i.config.idle_ttl ≡ ttl → IsTidy (evict_idle now i)
      go none e = rw (evict_idle, e) t
      go (some ttl) e =
          rw (evict_idle, e)
            record {
              within_cap = omega (arith, t.within_cap, length-keep_live ttl now i.series);
              distinct = keep_live-Distinct ttl now i.series t.distinct;
              notified_once = t.notified_once;
              notified_all = t.notified_all;
              notified_same = t.notified_same;
            }

  refuse-events :
      (key : SeriesKey) (i : Inner F)
      → IsTidy i
      → (refuse key i).events ≡ with_events i.events (key.name ∷ [])
  unfolding refuse with_events
  refuse-events key i t = elim (Bool-cases (mentions key.name i.cap_breach_notified)) [
    | inl e ↦ rw (refuse, e, t.notified_same key.name ∙ e) refl
    | inr e ↦ rw (refuse, e, t.notified_same key.name ∙ e) refl
  ]

module _ {F : Type 0} (f64 : Float F) where
  module _ (f : SeriesState F → SeriesState F) (key : SeriesKey) (kind : SeriesKind)
      (unit : Option Text) (now : ℕ) where
    pub update-IsTidy : (i : Inner F) → IsTidy i → IsTidy (update f64 f key kind unit now [] i)
    update-IsTidy i t = elim (Option-cases (get key i.series)) [
      | inr (s, e) ↦ rw (update-existing f64 f key kind unit now i s e) record {
        within_cap = rw (length-modify f key i.series) (t.within_cap);
        distinct = modify-Distinct f key i.series t.distinct;
        notified_once = t.notified_once;
        notified_all = t.notified_all;
        notified_same = t.notified_same;
      }
      | inl e ↦ elim (Bool-cases (leb i.config.max_series (length i.series))) [
        | inl full ↦ rw (update-full f64 f key kind unit now i e full) (refuse-IsTidy key i t)
        | inr room ↦
            let table = (key, fresh f64 kind unit now) ∷ i.series in
            rw (update-new f64 f key kind unit now i e room) record {
              within_cap = rw (length-modify f key table) (ground (arith, room));
              distinct = modify-Distinct f key table (e, t.distinct);
              notified_once = t.notified_once;
              notified_all = t.notified_all;
              notified_same = t.notified_same;
            }
      ]
    ]

    -- A recording adds the event of its refusal, if it is refused.
    pub update-events :
        (i : Inner F)
        → IsTidy i
        → (update f64 f key kind unit now [] i).events ≡ with_events i.events (refusal key i)
    unfolding refusal with_events
    update-events i t = elim (Option-cases (get key i.series)) [
      | inr (s, e) ↦ rw (update-existing f64 f key kind unit now i s e, refusal, e) refl
      | inl e ↦ elim (Bool-cases (leb i.config.max_series (length i.series))) [
        | inl full ↦
            rw (update-full f64 f key kind unit now i e full, refusal, e, full)
              (refuse-events key i t)
        | inr room ↦ rw (update-new f64 f key kind unit now i e room, refusal, e, room) refl
      ]
    ]

pub new-IsTidy : {F : Type 0} (config : PromConfig F) → IsTidy (new config)
unfolding new
new-IsTidy config = record {
  within_cap = omega arith;
  distinct = tt;
  notified_once = tt;
  notified_all = refl;
  notified_same = λ name. refl;
}
