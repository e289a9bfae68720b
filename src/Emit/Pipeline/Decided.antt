-- ===== src/Emit/Pipeline/Decided.antt =====
-- The outcome of the pipeline by a table: what decides on each part of it.
use obs.Prelude.{
  ℕ, ◌≡◌, Bool, true, false, not, ◌&&◌, ◌||◌, Option, none, some, List, [], ◌∷◌, Text, length,
  if◌then◌else◌,
}
use obs.Emit.Severity.{Severity, unspecified, trace, debug, info, warn, error, fatal}
use obs.Emit.Envelope.{Envelope, override}
use obs.Emit.Filter.{Filter}
use obs.Emit.Sampling.{SamplingDecision, drop_it, keep_it, parent_set}
use obs.Emit.Scope.{Stacks, push_tail_buffer, mark_error_on_active_scopes}
use obs.Emit.Pipeline.{SelfEvent, oversized_dropped, oversized_label_dropped, Outcome}

-- A sampler keeps an envelope of its own, or as the parent says, and then the envelope is marked.
abbrev pub says_keep : SamplingDecision → Bool
says_keep drop_it = false
says_keep keep_it = true
says_keep (parent_set sampled) = sampled

abbrev pub as_decided : SamplingDecision → Envelope → Envelope
as_decided drop_it env = env
as_decided keep_it env = env
as_decided (parent_set false) env = env
as_decided (parent_set true) env = record env { sampling_reason = override }

-- What an envelope that the sampler keeps does to the scopes, by its severity.
abbrev pub noted : Severity → Envelope → Stacks → Stacks
noted unspecified env s = s
noted trace env s = push_tail_buffer env s
noted debug env s = push_tail_buffer env s
noted info env s = s
noted warn env s = s
noted error env s = mark_error_on_active_scopes s
noted fatal env s = mark_error_on_active_scopes s

abbrev pub is_none {ℓ} : {A : Type ℓ} → Option A → Bool
is_none none = true
is_none (some a) = false

-- The reports about an envelope, by its size and its labels.
abbrev pub reports_of : Bool → Option (Text × ℕ) → Envelope → List SelfEvent
reports_of true label env = oversized_dropped env.full_name (length env.payload) ∷ []
reports_of false none env = []
reports_of false (some (key, size)) env = oversized_label_dropped env.full_name key size ∷ []

-- The table: `fits` is a size within the limit, `asked` whether the sampler is asked.
pub record Decides (fits : Bool) (label : Option (Text × ℕ)) (allowed bypass : Bool)
    (d : SamplingDecision × ℕ) (sev : Severity) (env : Envelope) (s : Stacks) (x : ℕ) (o : Outcome)
    : Type 0 where
  pub is_kept : o.kept ≡ fits && (is_none label && (allowed && (bypass || says_keep d.0)))
  pub same_reports : o.reports ≡ reports_of (not fits) label env
  pub same_envelope :
      o.envelope
      ≡ (if fits && (is_none label && (allowed && not bypass)) then as_decided d.0 env else env)
  pub same_stacks : o.stacks ≡ (
      if fits && (is_none label && (allowed && (not bypass && says_keep d.0)))
      then noted sev (as_decided d.0 env) s
      else s)
  pub same_rng : o.rng ≡ (if fits && (is_none label && (allowed && not bypass)) then d.1 else x)
