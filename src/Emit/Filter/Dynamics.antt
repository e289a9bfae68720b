-- ===== src/Emit/Filter/Dynamics.antt =====
-- Dynamic directives of crates/obs-core/src/filter.rs: when one decides, and when none ever does.
use obs.Prelude.{
  ◌≡◌, ◌≢◌, refl, true, false, none, some, List, [], ◌∷◌, Text, text_eq, text_eq_refl, text_eq→eq,
  if◌then◌else◌, arith,
}
use obs.Emit.Severity.{Severity, at_least}
use obs.Emit.Envelope.{Envelope}
use obs.Emit.Filter.{
  Directive, Filter, bucket, push_dynamic, is_static, key_of, add, has_dynamic_for,
  callsite_interest, directive_matches_env, dynamic_decision, bucket_decision, event_allowed,
}

bucket-push_dynamic_other :
    (key name : Text) (d : Directive) (m : List (Text × List Directive))
    → text_eq key name ≡ false
    → bucket (push_dynamic key d m) name ≡ bucket m name
unfolding bucket push_dynamic
bucket-push_dynamic_other key name d [] h = ground (arith, h)
bucket-push_dynamic_other key name d ((k, ds) ∷ m) h =
    ground (arith, h, bucket-push_dynamic_other key name d m h, text_eq→eq k key)

bucket-push_dynamic :
    (key : Text) (d : Directive) (m : List (Text × List Directive))
    → bucket m key ≡ none
    → bucket (push_dynamic key d m) key ≡ some (d ∷ [])
unfolding bucket push_dynamic
bucket-push_dynamic key d [] h = ground (arith, text_eq_refl key)
bucket-push_dynamic key d ((k, ds) ∷ m) h = ground (arith, h, bucket-push_dynamic key d m)

add-dynamic :
    (d : Directive) (f : Filter)
    → is_static d ≡ false
    → add d f ≡ record f { dynamics = push_dynamic (key_of d) d f.dynamics }
unfolding add
add-dynamic d f h = rw h refl

key_of-none : (d : Directive) → d.target ≡ none → key_of d ≡ []
unfolding key_of
key_of-none d h = ground (arith, h)

key_of-some : (d : Directive) (t : Text) → d.target ≡ some t → key_of d ≡ t
unfolding key_of
key_of-some d t h = ground (arith, h)

unnamed : (name : Text) → name ≢ [] → text_eq [] name ≡ false
unfolding text_eq
unnamed [] h = absurd (h refl)
unnamed (c ∷ cs) h = refl

no_bucket :
    (f : Filter) (name : Text) → has_dynamic_for f name ≡ false → bucket f.dynamics name ≡ none
unfolding has_dynamic_for
no_bucket f name h = ground (arith, h)

-- The bucket of a directive that is the first for its target.
bucket-add :
    (d : Directive) (f : Filter) (name : Text)
    → is_static d ≡ false
    → d.target ≡ some name
    → has_dynamic_for f name ≡ false
    → bucket (add d f).dynamics name ≡ some (d ∷ [])
bucket-add d f name dyn target fresh =
    let key = key_of-some d name target in
    rw (add-dynamic d f dyn, key) (bucket-push_dynamic name d f.dynamics (no_bucket f name fresh))

-- A dynamic directive without a target changes no decision on an event that has a name, nor on its
-- callsite.
pub add_targetless :
    (d : Directive) (f : Filter) (env : Envelope) (path : Text) (sev : Severity)
    → is_static d ≡ false
    → d.target ≡ none
    → env.full_name ≢ []
    → (event_allowed (add d f) env sev ≡ event_allowed f env sev)
      × (callsite_interest (add d f) env.full_name path sev
          ≡ callsite_interest f env.full_name path sev)
unfolding event_allowed callsite_interest has_dynamic_for
add_targetless d f env path sev dyn no_target named =
    let key : text_eq (key_of d) env.full_name ≡ false =
      rw (key_of-none d no_target) (unnamed env.full_name named) in
    let other = bucket-push_dynamic_other (key_of d) env.full_name d f.dynamics key in
    rw (add-dynamic d f dyn)
      (rw (event_allowed, other) refl, rw (callsite_interest, has_dynamic_for, other) refl)

-- The first dynamic directive for an event's name decides on the events with its labels, whatever
-- the static directives and the default level say.
pub event_allowed_dynamic :
    (d : Directive) (f : Filter) (env : Envelope) (sev : Severity)
    → is_static d ≡ false
    → d.target ≡ some env.full_name
    → has_dynamic_for f env.full_name ≡ false
    → directive_matches_env d.fields env.labels ≡ true
    → event_allowed (add d f) env sev ≡ (if d.is_off then false else at_least sev d.floor)
unfolding event_allowed bucket_decision dynamic_decision
event_allowed_dynamic d f env sev dyn target fresh hit =
    rw (event_allowed, bucket-add d f env.full_name dyn target fresh, hit) refl

-- An event whose labels the directive does not match is decided as if it were not there.
pub event_allowed_other_labels :
    (d : Directive) (f : Filter) (env : Envelope) (sev : Severity)
    → is_static d ≡ false
    → d.target ≡ some env.full_name
    → has_dynamic_for f env.full_name ≡ false
    → directive_matches_env d.fields env.labels ≡ false
    → event_allowed (add d f) env sev ≡ event_allowed f env sev
unfolding event_allowed bucket_decision dynamic_decision
event_allowed_other_labels d f env sev dyn target fresh miss =
    rw
      (
        event_allowed,
        bucket-add d f env.full_name dyn target fresh,
        miss,
        no_bucket f env.full_name fresh,
        add-dynamic d f dyn,
      )
      refl
