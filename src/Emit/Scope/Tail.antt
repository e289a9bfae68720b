-- ===== src/Emit/Scope/Tail.antt =====
-- The tail buffer of a scope, and what its guard flushes.
use obs.Prelude.{
  ℕ, ◌+◌, ◌-◌, ◌≤◌, ◌<◌, ◌≡◌, refl, sym, ap, ◌∙◌, inl, inr, Bool, true, false, Bool-cases, ◌&&◌,
  List, [], ◌∷◌, ◌++◌, append_assoc, append-nil, map, leb, ◌==◌, if◌then◌else◌, length, drop,
  length-append, length-drop, drop-append_le, drop-drop, arith,
}
use obs.Emit.Envelope.{Envelope}
use obs.Emit.Scope.{
  ScopeField, new, push_frame, scope, ScopeFrame, is_scope, push_back, push_tail, flush_mark,
  Stacks, active, with_active, pop, push_to_top, push_tail_buffer, mark_error,
  mark_error_on_active_scopes, drop_guard, flush_through,
}

-- The last `n` elements.
unfoldable pub last {ℓ} : {A : Type ℓ} → ℕ → List A → List A
last n xs = drop (length xs - n) xs

-- What an emit does to the scopes that are open: an envelope for the tail buffer, or an error.
pub data ScopeEvent : Type 0 where
  buffered : Envelope → ScopeEvent
  failed : ScopeEvent

unfoldable pub apply_event : ScopeEvent → Stacks → Stacks
apply_event (buffered env) s = push_tail_buffer env s
apply_event failed s = mark_error_on_active_scopes s

unfoldable pub run_events : List ScopeEvent → Stacks → Stacks
run_events [] s = s
run_events (e ∷ es) s = run_events es (apply_event e s)

unfoldable pub pushed : List ScopeEvent → List Envelope
pushed [] = []
pushed (buffered env ∷ es) = env ∷ pushed es
pushed (failed ∷ es) = pushed es

unfoldable pub any_failed : List ScopeEvent → Bool
any_failed [] = false
any_failed (buffered env ∷ es) = any_failed es
any_failed (failed ∷ es) = true

-- The innermost frame, and the others, after some events.
after_events : List ScopeEvent → ScopeFrame → ScopeFrame
after_events [] f = f
after_events (buffered env ∷ es) f = after_events es (push_tail env f)
after_events (failed ∷ es) f = after_events es (mark_error f)

outer_after : List ScopeEvent → List ScopeFrame → List ScopeFrame
outer_after [] fs = fs
outer_after (buffered env ∷ es) fs = outer_after es fs
outer_after (failed ∷ es) fs = outer_after es (map mark_error fs)

-- Pushing on the last elements gives the last elements.
push_back-last :
    (n : ℕ) (xs : List Envelope) (env : Envelope)
    → 0 < n
    → push_back n (last n xs) env ≡ last n (xs ++ (env ∷ []))
unfolding push_back last
push_back-last n xs env h = elim (Bool-cases (leb n (length (drop (length xs - n) xs)))) [
  | inl full ↦
      let skip : length (xs ++ (env ∷ [])) - n ≡ length xs - n + 1 =
        ground (arith, full, length-drop (length xs - n) xs, length-append xs (env ∷ [])) in
      let fits : length xs - n + 1 ≤ length xs =
        ground (arith, full, length-drop (length xs - n) xs) in
      rw (full, skip, drop-append_le (length xs - n + 1) xs (env ∷ []) fits, drop-drop) refl
  | inr room ↦
      let all : length (xs ++ (env ∷ [])) - n ≡ 0 =
        ground (arith, room, length-drop (length xs - n) xs, length-append xs (env ∷ [])) in
      let none_old : length xs - n ≡ 0 = ground (arith, room, length-drop (length xs - n) xs) in
      rw (room, all, none_old) refl
]

active-with_active : (fs : List ScopeFrame) (s : Stacks) → active (with_active fs s) ≡ fs
unfolding active with_active
active-with_active fs s = ground arith

with_active_twice :
    (a b : List ScopeFrame) (s : Stacks) → with_active a (with_active b s) ≡ with_active a s
unfolding with_active
with_active_twice a b s = ground arith

with_active_same : (s : Stacks) → with_active (active s) s ≡ s
unfolding active with_active
with_active_same s = ground arith

run_events_lem :
    (es : List ScopeEvent) (f : ScopeFrame) (fs : List ScopeFrame) (s : Stacks)
    → run_events es (with_active (f ∷ fs) s) ≡ with_active (after_events es f ∷ outer_after es fs) s
unfolding run_events apply_event push_tail_buffer mark_error_on_active_scopes push_to_top
    after_events outer_after
run_events_lem [] f fs s = refl
run_events_lem (buffered env ∷ es) f fs s =
    rw (active-with_active (f ∷ fs) s, with_active_twice) (run_events_lem es (push_tail env f) fs s)
run_events_lem (failed ∷ es) f fs s =
    rw (active-with_active (f ∷ fs) s, with_active_twice)
      (run_events_lem es (mark_error f) (map mark_error fs) s)

map-mark_error_twice :
    (fs : List ScopeFrame) → map mark_error (map mark_error fs) ≡ map mark_error fs
unfolding mark_error
map-mark_error_twice [] = refl
map-mark_error_twice (f ∷ fs) = ap (λ t. mark_error f ∷ t) (map-mark_error_twice fs)

outer_after_lem :
    (es : List ScopeEvent) (fs : List ScopeFrame)
    → outer_after es fs ≡ (if any_failed es then map mark_error fs else fs)
unfolding outer_after any_failed
outer_after_lem [] fs = refl
outer_after_lem (buffered env ∷ es) fs = outer_after_lem es fs
outer_after_lem (failed ∷ es) fs =
    outer_after_lem es (map mark_error fs) ∙ ground (arith, map-mark_error_twice fs)

push_tail_lem :
    (env : Envelope) (f : ScopeFrame)
    → is_scope f.kind ≡ true
    → 0 < f.tail_capacity
    → push_tail env f ≡ record f { tail_buffer = push_back f.tail_capacity f.tail_buffer env }
unfolding push_tail
push_tail_lem env f kind room =
    let some_room : (f.tail_capacity == 0) ≡ false = ground arith in rw (kind, some_room) refl

-- A scope keeps the last envelopes that were pushed, as many as its capacity says.
after_events_lem :
    (es : List ScopeEvent) (before : List Envelope) (f : ScopeFrame)
    → is_scope f.kind ≡ true
    → 0 < f.tail_capacity
    → f.tail_buffer ≡ last f.tail_capacity before
    → ((after_events es f).tail_buffer ≡ last f.tail_capacity (before ++ pushed es))
      × ((after_events es f).seen_error ≡ (if f.seen_error then true else any_failed es))
      × ((after_events es f).kind ≡ f.kind)
unfolding after_events pushed any_failed push_tail mark_error
after_events_lem [] before f kind room h =
    (h ∙ ap (last f.tail_capacity) (sym (append-nil before)), ground arith, refl)
after_events_lem (buffered env ∷ es) before f kind room h =
    let next = record f { tail_buffer = push_back f.tail_capacity f.tail_buffer env } in
    let kept : next.tail_buffer ≡ last f.tail_capacity (before ++ (env ∷ [])) =
      ap (λ t. push_back f.tail_capacity t env) h
      ∙ push_back-last f.tail_capacity before env room in
    let (tail, seen, same) = after_events_lem es (before ++ (env ∷ [])) next kind room kept in
    rw (after_events, push_tail_lem env f kind room)
      (tail ∙ ap (last f.tail_capacity) (append_assoc before (env ∷ []) (pushed es)), seen, same)
after_events_lem (failed ∷ es) before f kind room h =
    let (tail, seen, same) = after_events_lem es before (mark_error f) kind room h in
    (tail, seen ∙ ground arith, same)

drop_guard-with_active :
    (emit : Envelope → Stacks → Stacks) (f : ScopeFrame) (fs : List ScopeFrame) (s : Stacks)
    → let flushed = if is_scope f.kind && f.seen_error then map flush_mark f.tail_buffer else [] in
      drop_guard emit (with_active (f ∷ fs) s)
      ≡ (flushed, flush_through emit flushed (with_active fs s))
unfolding drop_guard pop
drop_guard-with_active emit f fs s =
    rw (drop_guard, active-with_active (f ∷ fs) s, with_active_twice) refl

last_nil {ℓ} : {A : Type ℓ} (n : ℕ) → last {A = A} n [] ≡ []
unfolding last
last_nil n = let z : 0 - n ≡ 0 = omega arith in rw z refl

marked :
    (emit : Envelope → Stacks → Stacks) (s : Stacks) (b : Bool) (flushed : List Envelope)
    → ◌≡◌ {A = List Envelope × Stacks}
        (
          flushed,
          flush_through emit flushed
              (with_active (if b then map mark_error (active s) else active s) s),
        )
        (flushed, flush_through emit flushed (if b then mark_error_on_active_scopes s else s))
unfolding mark_error_on_active_scopes
marked emit s true flushed = refl
marked emit s false flushed = ap (λ t. (flushed, flush_through emit flushed t)) (with_active_same s)

-- When the guard of a scope is dropped, the envelopes that were buffered in it are emitted, in
-- order, if an error was marked while it was open: the last of them, as many as the capacity says,
-- which is not zero, each marked as `TAIL_ERROR`. Otherwise none is. They are emitted one after the
-- other in the other scopes, which are as they were but for the mark, whatever an emission does to
-- the scopes.
pub drop_guard_flushes :
    (emit : Envelope → Stacks → Stacks) (fields : List ScopeField) (capacity : ℕ)
    (es : List ScopeEvent) (s : Stacks)
    → 0 < capacity
    → let flushed = if any_failed es then map flush_mark (last capacity (pushed es)) else [] in
      drop_guard emit (run_events es (push_frame (new fields scope capacity) s)) ≡ (
        flushed,
        flush_through emit flushed (if any_failed es then mark_error_on_active_scopes s else s),
      )
unfolding push_frame new is_scope
drop_guard_flushes emit fields capacity es s room =
    let f = new fields scope capacity in
    let (tail, seen, same) = after_events_lem es [] f refl room (sym (last_nil capacity)) in
    rw (run_events_lem es f (active s) s, drop_guard-with_active, tail, seen, same, outer_after_lem)
      (marked emit s (any_failed es) _)
