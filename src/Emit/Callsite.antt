-- ===== src/Emit/Callsite.antt =====
-- crates/obs-core/src/callsite.rs with the gate of crates/obs-core/src/emit.rs: the interest that a
-- callsite caches, and the reloads that make it stale.
pub mod Cache
use obs.Prelude.{ℕ, ◌+◌, ◌%◌, ◌^◌, ◌≡◌, Bool, true, false, ◌==◌, if◌then◌else◌, Text, ◌⊎◌}
use obs.Emit.Severity.{Severity}
use obs.Emit.Filter.{Filter, Interest, unknown, never, sometimes, always, callsite_interest}

-- `ObsCallsite`, less the file and line; `path` is its module path.
pub record ObsCallsite : Type 0 where
  pub full_name : Text
  pub default_sev : Severity
  pub path : Text
  pub interest : ℕ
  pub cached_gen : ℕ

pub data EnabledOutcome : Type 0 where
  off sometimes_on always_on re_probe : EnabledOutcome

-- `interest as u8`
unfoldable pub as_u8 : Interest → ℕ
as_u8 unknown = 0
as_u8 never = 1
as_u8 sometimes = 2
as_u8 always = 3

unfoldable pub from_u8 : ℕ → Interest
from_u8 value =
    if value == 1
    then never
    else if value == 2
    then sometimes
    else if value == 3
    then always
    else unknown

unfoldable pub new : Text → Severity → Text → ObsCallsite
unfolding as_u8
new full_name default_sev path = record {
  full_name = full_name;
  default_sev = default_sev;
  path = path;
  interest = as_u8 unknown;
  cached_gen = 0;
}

unfoldable pub outcome_of : Interest → EnabledOutcome
outcome_of unknown = EnabledOutcome.re_probe
outcome_of never = EnabledOutcome.off
outcome_of sometimes = EnabledOutcome.sometimes_on
outcome_of always = EnabledOutcome.always_on

-- `enabled`
unfoldable pub enabled : ObsCallsite → ℕ → EnabledOutcome
unfolding outcome_of from_u8
enabled cs current_gen =
    if cs.cached_gen == current_gen
    then outcome_of (from_u8 cs.interest)
    else EnabledOutcome.re_probe

unfoldable pub cache : Interest → ℕ → ObsCallsite → ObsCallsite
unfolding as_u8
cache interest current_gen cs = record cs { interest = as_u8 interest; cached_gen = current_gen }

unfoldable pub reset_cache : ObsCallsite → ObsCallsite
unfolding as_u8
reset_cache cs = record cs { interest = as_u8 unknown; cached_gen = 0 }

-- The part of `StandardObserver` that a callsite asks.
pub record Observer : Type 0 where
  pub filter : Filter
  pub generation : ℕ

unfoldable pub is_never : Interest → Bool
is_never unknown = false
is_never never = true
is_never sometimes = false
is_never always = false

-- `enabled` of the observer
unfoldable pub observer_enabled : Observer → ObsCallsite → Bool
unfolding is_never callsite_interest
observer_enabled o cs =
    if is_never (callsite_interest o.filter cs.full_name cs.path cs.default_sev)
    then false
    else true

-- The `match` of `emit_one` on the outcome.
unfoldable pub gate : EnabledOutcome → Observer → ObsCallsite → Bool × ObsCallsite
unfolding observer_enabled cache
gate EnabledOutcome.always_on o cs = (true, cs)
gate EnabledOutcome.off o cs = (false, cs)
gate EnabledOutcome.sometimes_on o cs = (observer_enabled o cs, cs)
gate EnabledOutcome.re_probe o cs =
    let allowed = observer_enabled o cs in
    (allowed, cache (if allowed then always else never) o.generation cs)

-- The gate of `emit_one`: whether the event is built, and the callsite with what it has cached.
unfoldable pub permit : Observer → ObsCallsite → Bool × ObsCallsite
unfolding enabled gate
permit o cs = gate (enabled cs o.generation) o cs

-- A new filter is stored, and then the generation is counted up, as a u32.
unfoldable pub store_filter : Filter → Observer → Observer
store_filter f o = record o { filter = f }

unfoldable pub reload_filter : Observer → Observer
reload_filter o = record o { generation = (o.generation + 1) % 2 ^ 32 }

-- An observer and one of its callsites; `reloading` from the storing of a filter to the count.
pub record World : Type 0 where
  pub observer : Observer
  pub callsite : ObsCallsite
  pub reloading : Bool

-- What can happen: an emit, at any time, and the two steps of `reload_config` on the filter.
pub data Step : World → World → Type 0 where
  emit : (w : World) → Step w (record w { callsite = (permit w.observer w.callsite).1 })
  store :
      (f : Filter) (w : World)
      → Step w (record w { observer = store_filter f w.observer; reloading = true })
  count : (w : World) → Step w (record w { observer = reload_filter w.observer; reloading = false })

-- `Steps n u w` : `n` steps lead from `u` to `w`.
pub data Steps : ℕ → World → World → Type 0 where
  done : (w : World) → Steps 0 w w
  step : {n : ℕ} (u v w : World) → Steps n u v → Step v w → Steps (n + 1) u w

-- A new observer has generation 1.
unfoldable pub start : Filter → Text → Severity → Text → World
unfolding new
start f full_name sev path = record {
  observer = record { filter = f; generation = 1 };
  callsite = new full_name sev path;
  reloading = false;
}
