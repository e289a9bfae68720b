-- ===== src/Sink/Rolling/Tests.antt =====
-- Writes on two days, and the theorems on them.
use obs.Prelude.{ℕ, ◌*◌, ◌≡◌, refl, true, false, none, List, [], ◌∷◌, Text, Bytes}
use obs.Sink.Rolling.{daily, RollingInner, World, content, run, counts}
use obs.Sink.Rolling.Log.{log, replay}
use obs.Sink.Rolling.Content.{run_refines_log}
use obs.Sink.Rolling.Named.{AllDated, log-AllDated}

abbrev at : ℕ → World
at now = record {
  now = now;
  can_open = true;
  written = none;
  can_list = true;
  can_remove = λ p. true;
}

abbrev writer : RollingInner
writer = record {
  prefix = b'o' ∷ [];
  suffix = [];
  policy = daily;
  keep = none;
  current = none;
  files = [];
  roll_counter = 0;
}

abbrev writes : List (World × Bytes)
writes = (at 0, 1 ∷ []) ∷ (at (86400 * 1000000000), 2 ∷ []) ∷ []

abbrev path : Text
path = b'o' ∷ b'.' ∷ []

run_refines_log_example :
    content path (run writes writer).files
    ≡ replay path (content path writer.files) (log writes writer)
run_refines_log_example = run_refines_log writes writer refl refl path

daily_is_timed : counts writer.policy ≡ false
unfolding counts
daily_is_timed = refl

log-AllDated_example : AllDated writer.prefix writer.suffix writer.policy (log writes writer)
log-AllDated_example = log-AllDated writes writer daily_is_timed refl
