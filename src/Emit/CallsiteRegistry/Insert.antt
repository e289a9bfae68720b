-- ===== src/Emit/CallsiteRegistry/Insert.antt =====
-- Insertion into the registry of callsites.
use obs.Prelude.{
  ℕ, ◌≡◌, ◌≢◌, refl, Bool, true, false, none, some, Option-cases, ◌∷◌, inl, inr, arith,
}
use obs.Emit.CallsiteRegistry.{CallsiteRecord, Registry, get, insert_if_absent}

-- The insertion at the entry alone, which no other thread can come between.
unfoldable pub insert_at_once : CallsiteRecord → Registry → CallsiteRecord × Bool × Registry
insert_at_once r map = elim (get map r.id) [
  | some existing ↦ (existing, false, map)
  | none ↦ (r, true, r ∷ map)
]

insert_if_absent_at_once :
    (r : CallsiteRecord) (at_get at_entry : Registry)
    → ((old : CallsiteRecord) → get at_get r.id ≡ some old → get at_entry r.id ≡ some old)
    → insert_if_absent r at_get at_entry ≡ insert_at_once r at_entry
unfolding insert_if_absent insert_at_once
insert_if_absent_at_once r at_get at_entry kept = elim (Option-cases (get at_get r.id)) [
  | inr (old, e) ↦ rw (insert_if_absent, insert_at_once, e, kept old e) refl
  | inl e ↦ rw (insert_if_absent, insert_at_once, e) refl
]

insert_at_once_lem :
    (r : CallsiteRecord) (map : Registry) (other : ℕ)
    → other ≢ r.id
    → let (kept, is_new, map') = insert_at_once r map in
      (get map' r.id ≡ some kept)
      × (get map' other ≡ get map other)
      × (is_new ≡ (elim (get map r.id) [ some old ↦ false | none ↦ true ]))
unfolding insert_at_once get
insert_at_once_lem r map other differs = elim (Option-cases (get map r.id)) [
  | inr (old, e) ↦ rw (insert_at_once, e) (e, refl, refl)
  | inl e ↦ rw (insert_at_once, e) (ground arith, ground (arith, differs), refl)
]

-- If other threads only insert, and so keep what the first lookup found, then an insertion is as one
-- that happens at once at the entry: the id then finds the record that is returned, every other id
-- finds what it found before, and the record is new exactly if the entry was vacant.
pub insert_if_absent_lem :
    (r : CallsiteRecord) (at_get at_entry : Registry) (other : ℕ)
    → ((old : CallsiteRecord) → get at_get r.id ≡ some old → get at_entry r.id ≡ some old)
    → other ≢ r.id
    → let (kept, is_new, map') = insert_if_absent r at_get at_entry in
      (get map' r.id ≡ some kept)
      × (get map' other ≡ get at_entry other)
      × (is_new ≡ (elim (get at_entry r.id) [ some old ↦ false | none ↦ true ]))
insert_if_absent_lem r at_get at_entry other kept differs =
    rw (insert_if_absent_at_once r at_get at_entry kept)
      (insert_at_once_lem r at_entry other differs)
