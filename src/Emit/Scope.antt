-- ===== src/Emit/Scope.antt =====
-- crates/obs-core/src/scope: frames, the stacks of the task and of the thread, and what an emit reads
-- and changes there.
pub mod Fill
pub mod Correlation
pub mod Tail
use obs.Prelude.{
  ℕ, suc, Bool, true, false, ◌&&◌, Option, none, some, List, [], ◌∷◌, ◌++◌, map, Text, leb, ◌==◌,
  if◌then◌else◌, length, drop,
}
use obs.Emit.Envelope.{Envelope, SamplingReason, tail_error, Labels, insert_label, contains_key}

pub data ScopeField : Type 0 where
  trace_id span_id parent_span_id : Text → ScopeField
  label : Text → Text → ScopeField

pub data ScopeKind : Type 0 where
  scope context : ScopeKind

-- `ScopeFrame`, less the span identity.
pub record ScopeFrame : Type 0 where
  pub fields : List ScopeField
  pub kind : ScopeKind
  pub tail_capacity : ℕ
  pub tail_buffer : List Envelope
  pub seen_error : Bool
  pub traceparent_sampled : Option Bool

unfoldable pub new : List ScopeField → ScopeKind → ℕ → ScopeFrame
new fields kind tail_capacity = record {
  fields = fields;
  kind = kind;
  tail_capacity = tail_capacity;
  tail_buffer = [];
  seen_error = false;
  traceparent_sampled = none;
}

unfoldable pub is_scope : ScopeKind → Bool
is_scope scope = true
is_scope context = false

-- `pop_front` on a full buffer, and `push_back`.
unfoldable pub push_back : ℕ → List Envelope → Envelope → List Envelope
push_back capacity buffer env =
    (if leb capacity (length buffer) then drop 1 buffer else buffer) ++ (env ∷ [])

unfoldable pub push_tail : Envelope → ScopeFrame → ScopeFrame
unfolding is_scope push_back
push_tail env f =
    if is_scope f.kind
    then (if f.tail_capacity == 0
        then f
        else record f { tail_buffer = push_back f.tail_capacity f.tail_buffer env })
    else f

unfoldable pub mark_error : ScopeFrame → ScopeFrame
mark_error f = record f { seen_error = true }

-- The frames of a stack, innermost first; a task has its own stack while it runs in one.
pub record Stacks : Type 0 where
  pub task : Option (List ScopeFrame)
  pub thread : List ScopeFrame

unfoldable pub active : Stacks → List ScopeFrame
active s = elim s.task [ some frames ↦ frames | none ↦ s.thread ]

-- Puts a stack in the place of the active one.
unfoldable pub with_active : List ScopeFrame → Stacks → Stacks
with_active frames s = elim s.task [
  | some old ↦ record s { task = some frames }
  | none ↦ record s { thread = frames }
]

unfoldable pub push_frame : ScopeFrame → Stacks → Stacks
unfolding active with_active
push_frame f s = with_active (f ∷ active s) s

unfoldable pub pop : List ScopeFrame → Option (ScopeFrame × List ScopeFrame)
pop [] = none
pop (f ∷ fs) = some (f, fs)

unfoldable pub is_empty : Text → Bool
is_empty [] = true
is_empty (c ∷ cs) = false

-- The `match` of `auto_fill_envelope` on one field.
unfoldable pub fill_field : Envelope → ScopeField → Envelope
unfolding is_empty
fill_field env (trace_id v) = if is_empty env.trace_id then record env { trace_id = v } else env
fill_field env (span_id v) = if is_empty env.span_id then record env { span_id = v } else env
fill_field env (parent_span_id v) =
    if is_empty env.parent_span_id then record env { parent_span_id = v } else env
fill_field env (label k v) =
    if contains_key env.labels k then env else record env { labels = insert_label k v env.labels }

unfoldable pub fill_fields : List ScopeField → Envelope → Envelope
unfolding fill_field
fill_fields [] env = env
fill_fields (field ∷ fields) env = fill_fields fields (fill_field env field)

unfoldable pub fill_frames : List ScopeFrame → Envelope → Envelope
unfolding fill_fields
fill_frames [] env = env
fill_frames (f ∷ fs) env = fill_frames fs (fill_fields f.fields env)

unfoldable pub auto_fill_envelope : Stacks → Envelope → Envelope
unfolding active fill_frames
auto_fill_envelope s env = fill_frames (active s) env

-- The decision of the outermost frame that has one.
unfoldable pub outermost : List ScopeFrame → Option Bool
outermost [] = none
outermost (f ∷ fs) =
    let older = outermost fs in
    elim older [ some sampled ↦ some sampled | none ↦ f.traceparent_sampled ]

unfoldable pub inbound_traceparent_sampled : Stacks → Option Bool
unfolding active outermost
inbound_traceparent_sampled s = outermost (active s)

-- One field of the loop of `active_correlation`.
unfoldable pub correlate_field : Option Text × Option Text → ScopeField → Option Text × Option Text
correlate_field (none, s) (trace_id v) = (some v, s)
correlate_field (some t, s) (trace_id v) = (some t, s)
correlate_field (t, none) (span_id v) = (t, some v)
correlate_field (t, some s) (span_id v) = (t, some s)
correlate_field ids (parent_span_id v) = ids
correlate_field ids (label k v) = ids

unfoldable pub correlate_fields :
    List ScopeField → Option Text × Option Text → Option Text × Option Text
unfolding correlate_field
correlate_fields [] ids = ids
correlate_fields (field ∷ fields) ids = correlate_fields fields (correlate_field ids field)

-- `match (trace_id, span_id)`, also the test that ends the loop early.
unfoldable pub both : Option Text × Option Text → Option (Text × Text)
both (none, s) = none
both (some t, none) = none
both (some t, some s) = some (t, s)

unfoldable pub correlate_frames : List ScopeFrame → Option Text × Option Text → Option (Text × Text)
unfolding correlate_fields both
correlate_frames [] ids = both ids
correlate_frames (f ∷ fs) ids =
    let ids' = correlate_fields f.fields ids in
    let rest = correlate_frames fs ids' in
    elim (both ids') [ some found ↦ some found | none ↦ rest ]

unfoldable pub active_correlation : Stacks → Option (Text × Text)
unfolding active correlate_frames
active_correlation s = correlate_frames (active s) (none, none)

unfoldable pub push_to_top : Envelope → List ScopeFrame → List ScopeFrame
unfolding push_tail
push_to_top env [] = []
push_to_top env (f ∷ fs) = push_tail env f ∷ fs

unfoldable pub push_tail_buffer : Envelope → Stacks → Stacks
unfolding active with_active push_to_top
push_tail_buffer env s = with_active (push_to_top env (active s)) s

unfoldable pub mark_error_on_active_scopes : Stacks → Stacks
unfolding active with_active mark_error
mark_error_on_active_scopes s = with_active (map mark_error (active s)) s

-- `flush_through` marks an envelope before it is dispatched.
unfoldable pub flush_mark : Envelope → Envelope
flush_mark env = record env { sampling_reason = tail_error }

-- `emit` is what `enter_emit_envelope` does to the scopes of the thread with one envelope.
unfoldable pub flush_through : (Envelope → Stacks → Stacks) → List Envelope → Stacks → Stacks
flush_through emit [] s = s
flush_through emit (env ∷ envs) s = flush_through emit envs (emit env s)

-- `ScopeGuard::drop`: the frame is popped, and the envelopes of its tail are emitted in the scopes that
-- are left. The envelopes come with the scopes.
unfoldable pub drop_guard : (Envelope → Stacks → Stacks) → Stacks → List Envelope × Stacks
unfolding active with_active pop is_scope flush_mark flush_through
drop_guard emit s = elim (pop (active s)) [
  | none ↦ ([], s)
  | some (f, fs) ↦
      let flushed = if is_scope f.kind && f.seen_error then map flush_mark f.tail_buffer else [] in
      (flushed, flush_through emit flushed (with_active fs s))
]
