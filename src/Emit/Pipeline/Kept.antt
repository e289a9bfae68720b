-- ===== src/Emit/Pipeline/Kept.antt =====
-- Which envelopes the pipeline keeps, and what it does to the scopes.
use obs.Prelude.{
  ℕ, ◌≤◌, ◌<◌, ◌≡◌, refl, ◌⊎◌, inl, inr, true, false, Bool-cases, none, Option-cases, [], ◌∷◌,
  length, All, arith,
}
use obs.Emit.Severity.{Severity}
use obs.Emit.Envelope.{Envelope, Labels}
use obs.Emit.Filter.{Filter, event_allowed}
use obs.Emit.Sampling.{SamplingDecision, drop_it, keep_it, parent_set, decide}
use obs.Emit.Scope.{Stacks, auto_fill_envelope, inbound_traceparent_sampled}
use obs.Emit.Scope.Fill.{auto_fill_envelope_keeps}
use obs.Emit.Pipeline.{
  Config, Outcome, dropped, kept_as, is_oversized, long_label, bad_label, bypass_sampler,
  after_sampler, sample_step, filter_step, limit_step, run_emit_pipeline,
}

-- What all steps promise: an envelope that is kept has no report, and one that is dropped leaves the
-- scopes as they were.
Tidy : Stacks → Outcome → Type 0
Tidy s o = (o.kept ≡ true) × (o.reports ≡ []) ⊎ (o.kept ≡ false) × (o.stacks ≡ s)

after_sampler-Tidy :
    (d : SamplingDecision) (sev : Severity) (env : Envelope) (s : Stacks) (x : ℕ)
    → Tidy s (after_sampler d sev env s x)
unfolding after_sampler dropped kept_as Tidy
after_sampler-Tidy drop_it sev env s x = inr (refl, refl)
after_sampler-Tidy keep_it sev env s x = inl (refl, refl)
after_sampler-Tidy (parent_set true) sev env s x = inl (refl, refl)
after_sampler-Tidy (parent_set false) sev env s x = inr (refl, refl)

long_label-none :
    (limit : ℕ) (labels : Labels)
    → long_label limit labels ≡ none
    → All (λ kv. length kv.1 ≤ limit) labels
unfolding long_label
long_label-none limit [] h = tt
long_label-none limit ((k, v) ∷ labels) h =
    (ground (arith, h), long_label-none limit labels (ground (arith, h)))

module _ (cfg : Config) (f : Filter) (sev : Severity) (nanos : ℕ) where
  sample_step-Tidy :
      (env : Envelope) (s : Stacks) (x : ℕ) → Tidy s (sample_step cfg sev nanos env s x)
  unfolding sample_step kept_as Tidy
  sample_step-Tidy env s x = elim (Bool-cases (bypass_sampler env.sampling_reason)) [
    | inl bypass ↦ rw (sample_step, bypass) (inl (refl, refl))
    | inr sampled ↦
        let d = decide cfg.sampling env.full_name sev (inbound_traceparent_sampled s) nanos x in
        rw (sample_step, sampled) (after_sampler-Tidy d.0 sev env s d.1)
  ]

  filter_step-Tidy :
      (env : Envelope) (s : Stacks) (x : ℕ) → Tidy s (filter_step cfg f sev nanos env s x)
  unfolding filter_step dropped Tidy
  filter_step-Tidy env s x = elim (Bool-cases (event_allowed f env sev)) [
    | inl yes_it ↦ rw (filter_step, yes_it) (sample_step-Tidy env s x)
    | inr no_it ↦ rw (filter_step, no_it) (inr (refl, refl))
  ]

  limit_step-Tidy :
      (env : Envelope) (s : Stacks) (x : ℕ) → Tidy s (limit_step cfg f sev nanos env s x)
  unfolding limit_step dropped Tidy
  limit_step-Tidy env s x = elim (Bool-cases (is_oversized cfg env)) [
    | inl large ↦ rw (limit_step, large) (inr (refl, refl))
    | inr fits ↦ elim (Option-cases (bad_label cfg env)) [
      | inr (bad, e) ↦ rw (limit_step, fits, e) (inr (refl, refl))
      | inl e ↦ rw (limit_step, fits, e) (filter_step-Tidy env s x)
    ]
  ]

  -- The pipeline keeps an envelope and reports nothing, or drops it and leaves the scopes as they
  -- were: no tail buffer holds an envelope that was dropped, and no scope is marked for it.
  pub run_emit_pipeline_tidy :
      (env : Envelope) (s : Stacks) (x : ℕ)
      → ((run_emit_pipeline cfg f sev nanos env s x).kept ≡ true)
          × ((run_emit_pipeline cfg f sev nanos env s x).reports ≡ [])
        ⊎ ((run_emit_pipeline cfg f sev nanos env s x).kept ≡ false)
          × ((run_emit_pipeline cfg f sev nanos env s x).stacks ≡ s)
  unfolding run_emit_pipeline Tidy
  run_emit_pipeline_tidy env s x = limit_step-Tidy (auto_fill_envelope s env) s x

  -- An envelope that asks for no sampling, is within the limits and is allowed by the filter is kept
  -- as the scopes filled it, whatever the sampler would say; neither the generator nor the scopes
  -- change, also for an error.
  pub run_emit_pipeline_bypass :
      (env : Envelope) (s : Stacks) (x : ℕ)
      → is_oversized cfg (auto_fill_envelope s env) ≡ false
      → bad_label cfg (auto_fill_envelope s env) ≡ none
      → event_allowed f (auto_fill_envelope s env) sev ≡ true
      → bypass_sampler env.sampling_reason ≡ true
      → run_emit_pipeline cfg f sev nanos env s x ≡ kept_as (auto_fill_envelope s env) s x
  unfolding run_emit_pipeline
  run_emit_pipeline_bypass env s x fits short allowed bypass =
      let reason = (auto_fill_envelope_keeps s env).0 in
      rw
        (
          run_emit_pipeline, limit_step, fits, short, filter_step, allowed, sample_step, reason,
          bypass,
        )
        refl

  limit_step-kept :
      (env : Envelope) (s : Stacks) (x : ℕ)
      → (limit_step cfg f sev nanos env s x).kept ≡ true
      → (is_oversized cfg env ≡ false)
        × (bad_label cfg env ≡ none)
        × (event_allowed f env sev ≡ true)
  unfolding limit_step filter_step dropped
  limit_step-kept env s x h = elim (Bool-cases (is_oversized cfg env)) [
    | inl large ↦ let q = rw (limit_step, large) at h in absurd (cc)
    | inr fits ↦ elim (Option-cases (bad_label cfg env)) [
      | inr (bad, e) ↦ let q = rw (limit_step, fits, e) at h in absurd (cc)
      | inl e ↦ elim (Bool-cases (event_allowed f env sev)) [
        | inr refused ↦ let q = rw (limit_step, fits, e, filter_step, refused) at h in absurd (cc)
        | inl allowed ↦ (fits, e, allowed)
      ]
    ]
  ]

  -- An envelope that is kept is within both limits, if they are set, and allowed by the filter.
  pub run_emit_pipeline_limits :
      (env : Envelope) (s : Stacks) (x : ℕ)
      → 0 < cfg.max_payload_bytes
      → 0 < cfg.max_label_value_bytes
      → (run_emit_pipeline cfg f sev nanos env s x).kept ≡ true
      → (length env.payload ≤ cfg.max_payload_bytes)
        × All (λ kv. length kv.1 ≤ cfg.max_label_value_bytes) (auto_fill_envelope s env).labels
        × (event_allowed f (auto_fill_envelope s env) sev ≡ true)
  unfolding run_emit_pipeline is_oversized bad_label
  run_emit_pipeline_limits env s x payload labels h =
      let (fits, short, allowed) = limit_step-kept (auto_fill_envelope s env) s x h in
      let (_, same, _) = auto_fill_envelope_keeps s env in
      (
        ground (arith, fits, same),
        long_label-none cfg.max_label_value_bytes (auto_fill_envelope s env).labels
            (ground (arith, short)),
        allowed,
      )
