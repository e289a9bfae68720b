-- ===== src/Emit/Callsite/Cache.antt =====
-- The cached interest is never stale: every emit asks what the current filter would say.
use obs.Prelude.{
  ℕ, ◌+◌, ◌%◌, ◌^◌, ◌≤◌, ◌<◌, ◌≡◌, refl, ◌⊎◌, inl, inr, true, false, Bool-cases, ◌==◌,
  if◌then◌else◌, Text, arith,
}
use obs.Emit.Severity.{Severity}
use obs.Emit.Filter.{Filter, Interest, unknown, never, sometimes, always}
use obs.Emit.Callsite.{
  ObsCallsite, EnabledOutcome, as_u8, from_u8, new, outcome_of, enabled, cache, Observer,
  observer_enabled, gate, permit, store_filter, reload_filter, World, Step, Steps, emit, store,
  count, done, step, start,
}

-- What may stand in the cache of a callsite: nothing of this generation, no decision, or the
-- decision that the observer would make.
pub data IsFresh (o : Observer) (cs : ObsCallsite) : Type 0 where
  stale : cs.cached_gen < o.generation → IsFresh o cs
  asks : from_u8 cs.interest ≡ unknown → IsFresh o cs
  checks : from_u8 cs.interest ≡ sometimes → IsFresh o cs
  decided : from_u8 cs.interest ≡ (if observer_enabled o cs then always else never) → IsFresh o cs

from-as_u8 : (i : Interest) → from_u8 (as_u8 i) ≡ i
unfolding from_u8 as_u8
from-as_u8 unknown = refl
from-as_u8 never = refl
from-as_u8 sometimes = refl
from-as_u8 always = refl

permit_cached :
    (o : Observer) (cs : ObsCallsite) (i : Interest)
    → from_u8 cs.interest ≡ i
    → (cs.cached_gen == o.generation) ≡ true
    → enabled cs o.generation ≡ outcome_of i
unfolding enabled
permit_cached o cs i h e = rw (e, h) refl

permit_stale :
    (o : Observer) (cs : ObsCallsite)
    → enabled cs o.generation ≡ EnabledOutcome.re_probe
    → permit o cs ≡ (
      observer_enabled o cs,
      cache (if observer_enabled o cs then always else never) o.generation cs,
    )
unfolding permit gate
permit_stale o cs h = rw (permit, h) refl

-- After a probe the decision is the one that is cached.
cache-IsFresh :
    (o : Observer) (cs : ObsCallsite)
    → IsFresh o (cache (if observer_enabled o cs then always else never) o.generation cs)
unfolding cache observer_enabled
cache-IsFresh o cs = decided (from-as_u8 _)

permit_probed :
    (o : Observer) (cs : ObsCallsite)
    → enabled cs o.generation ≡ EnabledOutcome.re_probe
    → ((permit o cs).0 ≡ observer_enabled o cs) × IsFresh o (permit o cs).1
permit_probed o cs h = rw (permit_stale o cs h) (refl, cache-IsFresh o cs)

permit_kept :
    (o : Observer) (cs : ObsCallsite) (i : Interest)
    → IsFresh o cs
    → from_u8 cs.interest ≡ i
    → (cs.cached_gen == o.generation) ≡ true
    → (i ≡ sometimes) ⊎ (i ≡ (if observer_enabled o cs then always else never))
    → permit o cs ≡ (observer_enabled o cs, cs)
unfolding permit outcome_of gate
permit_kept o cs i fresh h e (inl check) = rw (permit, permit_cached o cs i h e, check) refl
permit_kept o cs i fresh h e (inr known) = elim (Bool-cases (observer_enabled o cs)) [
  | inl on ↦ rw (permit, permit_cached o cs i h e, known, on) refl
  | inr not_on ↦ rw (permit, permit_cached o cs i h e, known, not_on) refl
]

-- With a fresh cache the gate lets an event pass as the observer would, and leaves a fresh cache.
permit_lem :
    (o : Observer) (cs : ObsCallsite)
    → IsFresh o cs
    → ((permit o cs).0 ≡ observer_enabled o cs) × IsFresh o (permit o cs).1
unfolding enabled
permit_lem o cs h = elim (Bool-cases (cs.cached_gen == o.generation)) [
  | inr other ↦ permit_probed o cs (rw (enabled, other) refl)
  | inl same ↦ elim h [
    | stale lt ↦ absurd (ground (arith, lt, same))
    | asks e ↦ permit_probed o cs (permit_cached o cs unknown e same)
    | checks e ↦ rw (permit_kept o cs sometimes (checks e) e same (inl refl)) (refl, checks e)
    | decided e ↦ rw (permit_kept o cs _ (decided e) e same (inr refl)) (refl, decided e)
  ]
]

-- The generation counts the steps from 1, the cache is not ahead of it, and outside of a reload the
-- cache is fresh.
record IsValid (n : ℕ) (w : World) : Type 0 where
  counted : w.observer.generation ≤ n + 1
  behind : w.callsite.cached_gen ≤ w.observer.generation
  fresh : (w.reloading ≡ true) ⊎ IsFresh w.observer w.callsite

gate-gen :
    (x : EnabledOutcome) (o : Observer) (cs : ObsCallsite)
    → cs.cached_gen ≤ o.generation
    → (gate x o cs).1.cached_gen ≤ o.generation
unfolding gate cache
gate-gen EnabledOutcome.always_on o cs h = h
gate-gen EnabledOutcome.off o cs h = h
gate-gen EnabledOutcome.sometimes_on o cs h = h
gate-gen EnabledOutcome.re_probe o cs h = omega arith

Step-IsValid : (n : ℕ) (v w : World) → n + 2 < 2 ^ 32 → Step v w → IsValid n v → IsValid (n + 1) w
unfolding store_filter reload_filter permit
Step-IsValid n _ _ bound (emit v) h = record {
  counted = omega (arith, h.counted);
  behind = gate-gen (enabled v.callsite v.observer.generation) v.observer v.callsite h.behind;
  fresh = elim h.fresh [ inl r ↦ inl r | inr f ↦ inr (permit_lem v.observer v.callsite f).1 ];
}
Step-IsValid n _ _ bound (store f v) h = record {
  counted = omega (arith, h.counted);
  behind = h.behind;
  fresh = inl refl;
}
Step-IsValid n _ _ bound (count v) h =
    let next : (v.observer.generation + 1) % 2 ^ 32 ≡ v.observer.generation + 1 =
      omega (arith, h.counted) in
    record {
      counted = omega (arith, next, h.counted);
      behind = omega (arith, next, h.behind);
      fresh = inr (stale (omega (arith, next, h.behind)));
    }

Steps-IsValid : {n : ℕ} (u w : World) → n + 1 < 2 ^ 32 → Steps n u w → IsValid 0 u → IsValid n w
Steps-IsValid _ _ bound (done u) h = h
Steps-IsValid _ _ bound (step {n} u v w path last) h =
    Step-IsValid n v w (omega arith) last (Steps-IsValid u v (omega arith) path h)

-- After any emits and steps of reloads of the filter, fewer than 2 ^ 32 - 1 of them, the emits
-- counted too, so that the u32 generation does not wrap, and outside of a reload, the gate lets an event pass exactly if the current filter's interest in its callsite is not
-- `Never`, whatever the callsite has cached.
pub permit_asks_current_filter :
    {n : ℕ} (f : Filter) (full_name path : Text) (sev : Severity) (w : World)
    → n + 1 < 2 ^ 32
    → Steps n (start f full_name sev path) w
    → w.reloading ≡ false
    → (permit w.observer w.callsite).0 ≡ observer_enabled w.observer w.callsite
unfolding start new as_u8
permit_asks_current_filter f full_name path sev w bound steps idle =
    let first : IsValid 0 (start f full_name sev path) = record {
      counted = omega arith;
      behind = omega arith;
      fresh = inr (stale (omega arith));
    } in
    let valid = Steps-IsValid (start f full_name sev path) w bound steps first in
    elim valid.fresh [
      | inl busy ↦ absurd (cc)
      | inr fresh ↦ (permit_lem w.observer w.callsite fresh).0
    ]
