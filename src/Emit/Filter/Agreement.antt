-- ===== src/Emit/Filter/Agreement.antt =====
-- The two decisions of crates/obs-core/src/filter.rs, for a callsite and for an event, compared.
use obs.Prelude.{
  ◌≡◌, refl, inl, inr, true, false, Option, none, some, Option-cases, [], Text, if◌then◌else◌, All,
  All-middle, arith,
}
use obs.Emit.Severity.{Severity, at_least, below-false, below-true}
use obs.Emit.Envelope.{Envelope}
use obs.Emit.Filter.{
  StaticDirective, off, level, Filter, sometimes, always, never, bucket, static_level_for,
  has_dynamic_for, blocked, callsite_interest, static_decision, bucket_decision, event_allowed,
}
use obs.Emit.Filter.Longest.{reach, static_level_for_lem}

-- The static decisions are opposite.
blocked-static_decision :
    (f : Filter) (r : Option StaticDirective) (sev : Severity)
    → blocked f r sev ≡ (if static_decision f r sev then false else true)
unfolding blocked static_decision
blocked-static_decision f none sev =
    ground (arith, below-false sev f.default_level, below-true sev f.default_level)
blocked-static_decision f (some off) sev = refl
blocked-static_decision f (some (level floor)) sev =
    ground (arith, below-false sev floor, below-true sev floor)

-- If the module of a callsite makes no difference to its static directive, the interest that is
-- cached for it is right: `Sometimes` if a dynamic directive names the event, and else `Always` or
-- `Never` as `event_allowed` decides on every event of this name at the callsite's severity.
pub callsite_interest_agrees :
    (f : Filter) (env : Envelope) (path : Text) (sev : Severity)
    → static_level_for f env.full_name path ≡ static_level_for f env.full_name []
    → callsite_interest f env.full_name path sev ≡ (
        if has_dynamic_for f env.full_name
        then sometimes
        else if event_allowed f env sev
        then always
        else never)
unfolding callsite_interest has_dynamic_for event_allowed bucket_decision
callsite_interest_agrees f env path sev h = elim (Option-cases (bucket f.dynamics env.full_name)) [
  | inl absent ↦
      rw (h, has_dynamic_for, event_allowed, absent, blocked-static_decision) (ground arith)
  | inr (ds, present) ↦ rw (h, has_dynamic_for, present) (ground arith)
]

no_match :
    (f : Filter) (full_name path : Text)
    → All (λ d. reach full_name path d ≡ 0) f.statics
    → static_level_for f full_name path ≡ none
no_match f full_name path all = elim (static_level_for_lem f full_name path) [
  | inl (found, _) ↦ found
  | inr (front, d, back, splits, _, hit, _, _) ↦ absurd (
      omega
        (arith, hit, All-middle (λ e. reach full_name path e ≡ 0) front d back (rw splits at all)))
]

-- A directive on a module does nothing once an event is built: if no target names the event itself
-- and no dynamic directive does, `event_allowed` asks for the default level alone.
pub event_allowed_ignores_modules :
    (f : Filter) (env : Envelope) (sev : Severity)
    → has_dynamic_for f env.full_name ≡ false
    → All (λ d. reach env.full_name [] d ≡ 0) f.statics
    → event_allowed f env sev ≡ (if f.default_off then false else at_least sev f.default_level)
unfolding event_allowed has_dynamic_for bucket_decision static_decision
event_allowed_ignores_modules f env sev absent all =
    elim (Option-cases (bucket f.dynamics env.full_name)) [
      | inl e ↦ rw (event_allowed, e, no_match f env.full_name [] all) refl
      | inr (ds, e) ↦ absurd (ground (arith, e, absent))
    ]
