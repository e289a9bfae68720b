-- ===== src/Emit/Sampling.antt =====
-- crates/obs-core/src/sampling.rs: the head sampler and its generator of random numbers.
use obs.Prelude.{
  ℕ, ◌*◌, ◌/◌, ◌%◌, ◌^◌, bit_xor, bit_or, Bool, true, false, Option, none, some, List, [], ◌∷◌,
  Text, text_eq, ltb, leb, ◌==◌, if◌then◌else◌,
}
use obs.Emit.Severity.{Severity, at_least}

-- An f64 as a rate: a finite one that is not negative is `n / 2 ^ k`.
pub data Rate : Type 0 where
  nan negative infinite : Rate
  dyadic : ℕ → ℕ → Rate

-- `rate >= 1.0`
unfoldable pub at_least_one : Rate → Bool
at_least_one nan = false
at_least_one negative = false
at_least_one infinite = true
at_least_one (dyadic n k) = leb (2 ^ k) n

-- `rate <= 0.0`
unfoldable pub at_most_zero : Rate → Bool
at_most_zero nan = false
at_most_zero negative = true
at_most_zero infinite = false
at_most_zero (dyadic n k) = n == 0

-- `top / 2 ^ 53 < rate`
unfoldable pub sample_below : ℕ → Rate → Bool
sample_below top nan = false
sample_below top negative = false
sample_below top infinite = true
sample_below top (dyadic n k) = ltb (top * 2 ^ k) (n * 2 ^ 53)

pub record SamplingConfig : Type 0 where
  pub default_rate : Rate
  pub per_event : List (Text × Rate)
  pub always_log_at_or_above : Severity
  pub honour_traceparent_sampled : Bool

pub data SamplingDecision : Type 0 where
  drop_it keep_it : SamplingDecision
  parent_set : Bool → SamplingDecision

-- `cfg.per_event.get(full_name).copied().unwrap_or(cfg.default_rate)`
unfoldable pub rate_of : List (Text × Rate) → Text → Rate → Rate
rate_of [] full_name default_rate = default_rate
rate_of ((k, rate) ∷ rates) full_name default_rate =
    let rest = rate_of rates full_name default_rate in if text_eq k full_name then rate else rest

-- `seed_state`, of the nanoseconds of the clock
unfoldable pub seed_state : ℕ → ℕ
seed_state nanos = bit_or (nanos % 2 ^ 64) 1

-- One turn of the generator on its state, a u64.
unfoldable pub xor_shift : ℕ → ℕ
xor_shift x =
    let a = bit_xor x (x * 2 ^ 13 % 2 ^ 64) in
    let b = bit_xor a (a / 2 ^ 7) in bit_xor b (b * 2 ^ 17 % 2 ^ 64)

unfoldable pub next_state : ℕ → ℕ → ℕ
unfolding seed_state xor_shift
next_state nanos x = xor_shift (if x == 0 then seed_state nanos else x)

-- The top 53 bits of a state: the numerator of the sample over 2 ^ 53.
unfoldable pub top_bits : ℕ → ℕ
top_bits x = x / 2 ^ 11

-- The decision by the rate alone, and the state of the generator after it.
unfoldable pub decide_rate : Rate → ℕ → ℕ → SamplingDecision × ℕ
unfolding at_least_one at_most_zero sample_below next_state top_bits
decide_rate rate nanos x =
    if at_least_one rate then (keep_it, x) else if at_most_zero rate then (drop_it, x) else (
      if sample_below (top_bits (next_state nanos x)) rate then keep_it else drop_it,
      next_state nanos x,
    )

unfoldable pub decide_local : SamplingConfig → Text → Severity → ℕ → ℕ → SamplingDecision × ℕ
unfolding decide_rate rate_of
decide_local cfg full_name severity nanos x =
    if at_least severity cfg.always_log_at_or_above
    then (keep_it, x)
    else decide_rate (rate_of cfg.per_event full_name cfg.default_rate) nanos x

-- `decide`, with the clock and the state of the thread's generator.
unfoldable pub decide :
    SamplingConfig → Text → Severity → Option Bool → ℕ → ℕ → SamplingDecision × ℕ
unfolding decide_local
decide cfg full_name severity none nanos x = decide_local cfg full_name severity nanos x
decide cfg full_name severity (some s) nanos x =
    if cfg.honour_traceparent_sampled
    then (parent_set s, x)
    else decide_local cfg full_name severity nanos x
