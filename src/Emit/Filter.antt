-- ===== src/Emit/Filter.antt =====
-- crates/obs-core/src/filter.rs: the filter with its directives, and its two decisions.
pub mod Split
pub mod Longest
pub mod Agreement
pub mod Dynamics
pub mod Winnow
pub mod Grammar
pub mod Parse
mod Tests
use obs.Prelude.{
  ℕ, zero, suc, ◌+◌, Bool, true, false, ◌&&◌, ◌||◌, Option, none, some, List, [], ◌∷◌, ◌++◌, Text,
  text_eq, ltb, if◌then◌else◌, length, Result, ok, err,
}
use obs.Emit.Severity.{Severity, info, at_least, below}
use obs.Emit.Envelope.{Envelope, Labels, lookup}

-- A directive that says what to do with a callsite that matches its target.
pub data StaticDirective : Type 0 where
  off : StaticDirective
  level : Severity → StaticDirective

pub record Directive : Type 0 where
  pub target : Option Text
  pub fields : List (Text × Text)
  pub floor : Severity
  pub is_off : Bool

-- The key of a bucket is a full name, or empty for a directive without a target.
pub record Filter : Type 0 where
  pub default_level : Severity
  pub default_off : Bool
  pub statics : List Directive
  pub dynamics : List (Text × List Directive)

pub data Interest : Type 0 where
  unknown never sometimes always : Interest

unfoldable pub new : Filter
new = record { default_level = info; default_off = false; statics = []; dynamics = [] }

-- `self.dynamics.get(name)`
unfoldable pub bucket : List (Text × List Directive) → Text → Option (List Directive)
bucket [] name = none
bucket ((k, ds) ∷ rest) name =
    let found = bucket rest name in if text_eq k name then some ds else found

-- `self.dynamics.entry(key).or_default().push(directive)`
unfoldable pub push_dynamic :
    Text → Directive → List (Text × List Directive) → List (Text × List Directive)
push_dynamic key d [] = (key, d ∷ []) ∷ []
push_dynamic key d ((k, ds) ∷ rest) =
    let pushed = push_dynamic key d rest in
    if text_eq k key then (k, ds ++ (d ∷ [])) ∷ rest else (k, ds) ∷ pushed

unfoldable pub is_static : Directive → Bool
is_static d = elim d.fields [ [] ↦ true | f ∷ fs ↦ false ]

-- `directive.target.clone().unwrap_or_default()`
unfoldable pub key_of : Directive → Text
key_of d = elim d.target [ none ↦ [] | some t ↦ t ]

-- `add_directive`, for a directive that the grammar has read.
unfoldable pub add : Directive → Filter → Filter
unfolding is_static key_of push_dynamic
add d f =
    if is_static d
    then elim d.target [
      | none ↦
          if d.is_off
          then record f { default_off = true }
          else record f { default_level = d.floor; default_off = false }
      | some t ↦ record f { statics = f.statics ++ (d ∷ []) }
    ]
    else record f { dynamics = push_dynamic (key_of d) d f.dynamics }

-- `s.strip_prefix(target)`
unfoldable pub strip_prefix : Text → Text → Option Text
strip_prefix s [] = some s
strip_prefix [] (t ∷ ts) = none
strip_prefix (c ∷ s) (t ∷ ts) =
    let rest = strip_prefix s ts in if text_eq (c ∷ []) (t ∷ []) then rest else none

-- `rest.starts_with('.') || rest.starts_with("::")`
unfoldable pub starts_segment : Text → Bool
unfolding text_eq
starts_segment [] = false
starts_segment (a ∷ []) = text_eq (a ∷ []) (b'.' ∷ [])
starts_segment (a ∷ b ∷ rest) =
    text_eq (a ∷ []) (b'.' ∷ []) || text_eq (a ∷ b ∷ []) (b':' ∷ b':' ∷ [])

unfoldable pub matches_segment : Text → Text → Bool
unfolding text_eq strip_prefix starts_segment
matches_segment s target =
    if text_eq s target
    then true
    else elim (strip_prefix s target) [ none ↦ false | some rest ↦ starts_segment rest ]

unfoldable pub resolved : Directive → StaticDirective
resolved d = if d.is_off then StaticDirective.off else StaticDirective.level d.floor

-- The target of a directive matches the event's name or the module.
unfoldable pub matches : Text → Text → Text → Bool
unfolding matches_segment
matches full_name path target = matches_segment full_name target || matches_segment path target

unfoldable pub is_longer : Text → Option (ℕ × StaticDirective) → Bool
is_longer t none = true
is_longer t (some (len, r)) = ltb len (length t)

-- One turn of the loop of `static_level_for`.
unfoldable pub better :
    Text → Text → Option (ℕ × StaticDirective) → Directive → Option (ℕ × StaticDirective)
unfolding is_longer matches resolved
better full_name path best d = elim d.target [
  | none ↦ best
  | some t ↦
      if matches full_name path t && is_longer t best then some (length t, resolved d) else best
]

unfoldable pub static_loop :
    Text → Text → List Directive → Option (ℕ × StaticDirective) → Option (ℕ × StaticDirective)
unfolding better
static_loop full_name path [] best = best
static_loop full_name path (d ∷ ds) best =
    static_loop full_name path ds (better full_name path best d)

unfoldable pub static_level_for : Filter → Text → Text → Option StaticDirective
unfolding static_loop
static_level_for f full_name path = elim (static_loop full_name path f.statics none) [
  | none ↦ none
  | some (len, r) ↦ some r
]

unfoldable pub has_dynamic_for : Filter → Text → Bool
unfolding bucket
has_dynamic_for f full_name = elim (bucket f.dynamics full_name) [ none ↦ false | some ds ↦ true ]

-- `callsite.default_sev() < sev_floor`, or an `off`.
unfoldable pub blocked : Filter → Option StaticDirective → Severity → Bool
blocked f none sev = f.default_off || below sev f.default_level
blocked f (some off) sev = true
blocked f (some (level floor)) sev = below sev floor

unfoldable pub callsite_interest : Filter → Text → Text → Severity → Interest
unfolding static_level_for has_dynamic_for blocked
callsite_interest f full_name path default_sev =
    let dynamic_present = has_dynamic_for f full_name in
    if blocked f (static_level_for f full_name path) default_sev
    then (if dynamic_present then sometimes else never)
    else (if dynamic_present then sometimes else always)

unfoldable pub directive_matches_env : List (Text × Text) → Labels → Bool
directive_matches_env [] labels = true
directive_matches_env ((k, v) ∷ fields) labels =
    let rest = directive_matches_env fields labels in
    elim (lookup labels k) [ none ↦ false | some actual ↦ if text_eq actual v then rest else false ]

-- The first directive of the bucket that matches the labels decides.
unfoldable pub dynamic_decision : List Directive → Labels → Severity → Option Bool
unfolding directive_matches_env
dynamic_decision [] labels sev = none
dynamic_decision (d ∷ ds) labels sev =
    let rest = dynamic_decision ds labels sev in
    if directive_matches_env d.fields labels
    then some (if d.is_off then false else at_least sev d.floor)
    else rest

unfoldable pub static_decision : Filter → Option StaticDirective → Severity → Bool
static_decision f (some off) sev = false
static_decision f (some (level floor)) sev = at_least sev floor
static_decision f none sev = if f.default_off then false else at_least sev f.default_level

unfoldable pub bucket_decision : Option (List Directive) → Labels → Severity → Option Bool
unfolding dynamic_decision
bucket_decision none labels sev = none
bucket_decision (some ds) labels sev = dynamic_decision ds labels sev

unfoldable pub event_allowed : Filter → Envelope → Severity → Bool
unfolding bucket bucket_decision static_decision static_level_for
event_allowed f env sev = elim (bucket_decision (bucket f.dynamics env.full_name) env.labels sev) [
  | some decision ↦ decision
  | none ↦ static_decision f (static_level_for f env.full_name []) sev
]
