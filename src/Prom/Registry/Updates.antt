-- ===== src/Prom/Registry/Updates.antt =====
-- What a recording with no rival does to the table.
use obs.Prelude.{
  ℕ, ◌≡◌, refl, ◌∙◌, inl, inr, true, false, Bool-cases, Option-cases, Option, none, some, [], ◌∷◌,
  Text, length, leb, if◌then◌else◌,
}
use obs.Prom.Series.{SeriesKind, SeriesKey, SeriesState, Float, fresh}
use obs.Prom.Registry.{
  key_eq, Table, get, modify, or_insert, is_vacant, Inner, mentions, refuse, get_or_insert,
  record_on, update,
}
use obs.Prom.Registry.Lookup.{get-modify, get-modify_other, key_eq_refl}

module _ {F : Type 0} where
  refuse-series : (key : SeriesKey) (i : Inner F) → (refuse key i).series ≡ i.series
  unfolding refuse
  refuse-series key i = elim (Bool-cases (mentions key.name i.cap_breach_notified)) [
    | inl e ↦ rw (refuse, e) refl
    | inr e ↦ rw (refuse, e) refl
  ]

  get-first :
      (key : SeriesKey) (s : SeriesState F) (table : Table F) → get key ((key, s) ∷ table) ≡ some s
  unfolding get
  get-first key s table = rw (key_eq_refl key) refl

  get-first_other :
      (key other : SeriesKey) (s : SeriesState F) (table : Table F)
      → key_eq key other ≡ false
      → get other ((key, s) ∷ table) ≡ get other table
  unfolding get
  get-first_other key other s table h = rw (h) refl

module _ {F : Type 0} (f64 : Float F) where
  module _ (f : SeriesState F → SeriesState F) (key : SeriesKey) (kind : SeriesKind)
      (unit : Option Text) (now : ℕ) where
    pub update-existing :
        (i : Inner F) (s : SeriesState F)
        → get key i.series ≡ some s
        → update f64 f key kind unit now [] i ≡ record i { series = modify f key i.series }
    unfolding update record_on get_or_insert
    update-existing i s e = rw (update, get_or_insert, e) refl

    pub update-full :
        (i : Inner F)
        → get key i.series ≡ none
        → leb i.config.max_series (length i.series) ≡ true
        → update f64 f key kind unit now [] i ≡ refuse key i
    unfolding update record_on get_or_insert
    update-full i e full = rw (update, get_or_insert, e, full) refl

    pub update-new :
        (i : Inner F)
        → get key i.series ≡ none
        → leb i.config.max_series (length i.series) ≡ false
        → update f64 f key kind unit now [] i
          ≡ record i { series = modify f key ((key, fresh f64 kind unit now) ∷ i.series) }
    unfolding update record_on get_or_insert or_insert is_vacant get
    update-new i e room = rw (update, get_or_insert, e, room, is_vacant, e, or_insert) refl

    -- What a series holds after an update.
    pub updated : Inner F → Option (SeriesState F)
    updated i = elim (get key i.series) [
      | some s ↦ some (f s)
      | none ↦
          if leb i.config.max_series (length i.series)
          then none
          else some (f (fresh f64 kind unit now))
    ]

    -- A recording with no rival changes its own series, an existing one or one that was made for it,
    -- unless the table is full; every other series stays as it was.
    pub update-get :
        (i : Inner F)
        → (get key (update f64 f key kind unit now [] i).series ≡ updated i)
          × ((other : SeriesKey)
              → key_eq key other ≡ false
              → get other (update f64 f key kind unit now [] i).series ≡ get other i.series)
    unfolding updated
    update-get i = elim (Option-cases (get key i.series)) [
      | inr (s, e) ↦
          rw (update-existing i s e, updated, e)
            (get-modify f key s i.series e, λ other h. get-modify_other f key other i.series h)
      | inl e ↦ elim (Bool-cases (leb i.config.max_series (length i.series))) [
        | inl full ↦
            rw (update-full i e full, refuse-series key i, updated, e, full) (refl, λ other h. refl)
        | inr room ↦
            let table = (key, fresh f64 kind unit now) ∷ i.series in
            rw (update-new i e room, updated, e, room)
              (
                get-modify f key (fresh f64 kind unit now) table (get-first key _ i.series),
                λ other h.
                    get-modify_other f key other table h ∙ get-first_other key other _ i.series h,
              )
      ]
    ]
