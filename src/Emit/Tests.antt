-- ===== src/Emit/Tests.antt =====
-- Runs of the emit path, and the theorems on it at concrete inputs.
use obs.Prelude.{
  ◌≤◌, ◌<◌, ◌≡◌, refl, ◌⊎◌, true, false, none, some, List, [], ◌∷◌, ◌++◌, Text, text_eq,
  if◌then◌else◌, map, All, arith,
}
use obs.Emit.Severity.{trace, debug, warn, number, below}
use obs.Emit.Envelope.{Envelope, SamplingReason, lookup}
use obs.Emit.Filter.{
  StaticDirective, Directive, Filter, sometimes, always, never, bucket, strip_prefix,
  starts_segment, matches_segment, resolved, matches, is_longer, better, static_loop,
  static_level_for, has_dynamic_for, callsite_interest, event_allowed,
}
use obs.Emit.Filter.Longest.{reach, static_level_for_lem}
use obs.Emit.Filter.Agreement.{callsite_interest_agrees}
use obs.Emit.Callsite.{
  observer_enabled, permit, World, emit, store, count, step, done, start, store_filter,
  reload_filter,
}
use obs.Emit.Callsite.Cache.{permit_asks_current_filter}
use obs.Emit.Sampling.{dyadic}
use obs.Emit.Scope.{
  trace_id, span_id, label, scope, new, is_empty, Stacks, active, push_frame, auto_fill_envelope,
  flush_mark, mark_error_on_active_scopes, drop_guard, flush_through, push_tail_buffer,
}
use obs.Emit.Scope.Fill.{
  fields_of, first_nonempty, trace_ids, span_ids, parent_span_ids, label_value,
  auto_fill_envelope_lem,
}
use obs.Emit.Scope.Tail.{buffered, failed, run_events, pushed, any_failed, last, drop_guard_flushes}
use obs.Emit.Pipeline.{Config}

-- An event `a.B` of the module `m`, with one label.
abbrev name : Text
name = b'a' ∷ b'.' ∷ b'B' ∷ []

abbrev event : Envelope
event = record {
  full_name = name;
  severity = debug;
  trace_id = [];
  span_id = [];
  parent_span_id = [];
  labels = (b'k' ∷ [], b'v' ∷ []) ∷ [];
  payload = 8 ∷ 1 ∷ [];
  sampling_reason = SamplingReason.unspecified;
}

-- `a=debug` and `m=debug` : a static directive on the package of the event, and one on its module.
abbrev on_package : Directive
on_package = record { target = some (b'a' ∷ []); fields = []; floor = debug; is_off = false }

abbrev on_module : Directive
on_module = record { target = some (b'm' ∷ []); fields = []; floor = debug; is_off = false }

abbrev with_statics : List Directive → Filter
with_statics ds = record { default_level = warn; default_off = false; statics = ds; dynamics = [] }

package_matches :
    static_level_for (with_statics (on_package ∷ [])) name [] ≡ some (StaticDirective.level debug)
unfolding static_level_for static_loop better matches matches_segment strip_prefix starts_segment
    is_longer resolved text_eq
package_matches = refl

static_level_for_lem_example :
    (static_level_for (with_statics (on_package ∷ [])) name [] ≡ none)
      × All (λ d. reach name [] d ≡ 0) (on_package ∷ [])
    ⊎ ((front : List Directive) × (d : Directive) × (back : List Directive) × ((on_package ∷ [])
          ≡ front ++ (d ∷ back))
        × (static_level_for (with_statics (on_package ∷ [])) name [] ≡ some (resolved d))
        × (0 < reach name [] d)
        × All (λ e. reach name [] e < reach name [] d) front
        × All (λ e. reach name [] e ≤ reach name [] d) back)
static_level_for_lem_example = static_level_for_lem (with_statics (on_package ∷ [])) name []

callsite_interest_agrees_example :
    callsite_interest (with_statics (on_package ∷ [])) name (b'z' ∷ []) debug ≡ (
      if has_dynamic_for (with_statics (on_package ∷ [])) name
      then sometimes
      else if event_allowed (with_statics (on_package ∷ [])) event debug
      then always
      else never)
unfolding static_level_for static_loop better matches matches_segment strip_prefix starts_segment
    is_longer resolved text_eq
callsite_interest_agrees_example =
    callsite_interest_agrees (with_statics (on_package ∷ [])) event (b'z' ∷ []) debug refl

-- `warn,m=debug` : the callsite in `m` is let through, and its events are dropped.
module_callsite : callsite_interest (with_statics (on_module ∷ [])) name (b'm' ∷ []) debug ≡ always
unfolding callsite_interest has_dynamic_for bucket static_level_for static_loop better matches
    matches_segment strip_prefix starts_segment is_longer resolved text_eq number below
module_callsite = refl

-- One emit, then a reload to a filter that allows the callsite.
abbrev strict : Filter
strict = with_statics []

abbrev at_start : World
at_start = start strict name debug []

abbrev after_emit : World
after_emit = record at_start { callsite = (permit at_start.observer at_start.callsite).1 }

abbrev after_store : World
after_store = record after_emit {
  observer = store_filter (with_statics (on_package ∷ [])) after_emit.observer;
  reloading = true;
}

abbrev after_reload : World
after_reload = record after_store {
  observer = reload_filter after_store.observer;
  reloading = false;
}

permit_asks_current_filter_example :
    (permit after_reload.observer after_reload.callsite).0
    ≡ observer_enabled after_reload.observer after_reload.callsite
permit_asks_current_filter_example =
    permit_asks_current_filter strict name [] debug after_reload (omega arith)
      (step at_start after_store after_reload
        (step at_start after_emit after_store
          (step at_start at_start after_emit (done at_start) (emit at_start))
          (store (with_statics (on_package ∷ [])) after_emit))
        (count after_store))
      refl

-- Two scopes: the inner one has a span and a label, the outer one a trace and the same label.
abbrev two_scopes : Stacks
two_scopes = record {
  task = none;
  thread =
      new (span_id (b's' ∷ []) ∷ label (b'r' ∷ []) (b'i' ∷ []) ∷ []) scope 2
      ∷ new (trace_id (b't' ∷ []) ∷ label (b'r' ∷ []) (b'o' ∷ []) ∷ []) scope 2
      ∷ [];
}

auto_fill_envelope_lem_example :
    ((auto_fill_envelope two_scopes event).trace_id ≡ b't' ∷ [])
    × ((auto_fill_envelope two_scopes event).span_id ≡ b's' ∷ [])
    × ((auto_fill_envelope two_scopes event).parent_span_id ≡ [])
    × (lookup (auto_fill_envelope two_scopes event).labels (b'r' ∷ []) ≡ some (b'i' ∷ []))
unfolding fields_of first_nonempty trace_ids span_ids parent_span_ids label_value active new
    is_empty lookup text_eq
auto_fill_envelope_lem_example = auto_fill_envelope_lem two_scopes event (b'r' ∷ [])

drop_guard_flushes_example :
    drop_guard push_tail_buffer (
      run_events
        (buffered event ∷ failed ∷ buffered event ∷ [])
        (push_frame (new [] scope 1) two_scopes))
    ≡ (
      map flush_mark (event ∷ []),
      flush_through push_tail_buffer
          (map flush_mark (event ∷ []))
          (mark_error_on_active_scopes two_scopes),
    )
unfolding any_failed pushed last
drop_guard_flushes_example =
    drop_guard_flushes push_tail_buffer [] 1 (buffered event ∷ failed ∷ buffered event ∷ [])
      two_scopes (omega arith)

abbrev half : Config
half = record {
  max_payload_bytes = 100;
  max_label_value_bytes = 10;
  sampling = record {
    default_rate = dyadic 1 1;
    per_event = [];
    always_log_at_or_above = warn;
    honour_traceparent_sampled = true;
  };
}

abbrev open_filter : Filter
open_filter = record { default_level = trace; default_off = false; statics = []; dynamics = [] }
