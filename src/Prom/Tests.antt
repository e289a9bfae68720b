-- ===== src/Prom/Tests.antt =====
-- The theorems on the series at concrete inputs. The numbers of a series are natural ones.
use obs.Prelude.{ℕ, ◌+◌, ◌≡◌, refl, none, some, List, [], ◌∷◌, map, Text, text_eq, length, leb}
use mathlib.Core.List.{Permᴰ}
use obs.Prom.Series.{counter, SeriesKey, HistogramState, Float, fresh}
use obs.Prom.Series.Buckets.{capped, record_samples, count_le, record_samples-counts}
use obs.Prom.Registry.{
  get_or_insert, is_vacant, or_insert, record_on, key_eq, Table, get, Inner, new, update,
  add_counter,
}
use obs.Prom.Registry.Cap.{IsTidy, with_events}
use obs.Prom.Deliver.{deliver, record_counter}
use obs.Prom.Deliver.Labels.{deliver-Perm}
use obs.Prom.Deliver.Tidy.{delivers, scrapes, run, run_refusals, run-new-IsTidy}

abbrev naturals : Float ℕ
naturals = record { zero_f64 = 0; le = leb; add = ◌+◌ }

abbrev histogram : HistogramState ℕ
histogram = record { bounds = []; bucket_counts = []; sum = 0; count = 0 }

abbrev samples : List (ℕ × List ℕ)
samples = (3, 1 ∷ []) ∷ (9, []) ∷ []

record_samples-counts_example :
    let all = (1, 2 ∷ 5 ∷ []) ∷ samples in
    ((record_samples naturals all histogram).bounds ≡ 2 ∷ 5 ∷ [])
    × ((record_samples naturals all histogram).bucket_counts
        ≡ map (λ x. capped (count_le naturals 0 x all)) (2 ∷ 5 ∷ []))
    × ((record_samples naturals all histogram).count ≡ capped (length all))
record_samples-counts_example =
    record_samples-counts naturals 1 2 (5 ∷ []) samples histogram refl refl

abbrev key : SeriesKey
key = record { name = b'a' ∷ []; labels = [] }

abbrev registry : Inner ℕ
registry = new (record { max_series = 2; idle_ttl = some 5; default_histogram_bounds = 1 ∷ [] })

abbrev rivals : Table ℕ
rivals = (key, fresh naturals counter none 0) ∷ []

-- A series that another thread inserts meanwhile does not show the recording.
overtaken :
    (update naturals (add_counter naturals 3 0) key counter none 0 rivals registry).series ≡ rivals
unfolding update get_or_insert get new is_vacant or_insert key_eq text_eq record_on
overtaken = refl

abbrev one : Text × Text
one = (b'k' ∷ [], b'1' ∷ [])

abbrev two : Text × Text
two = (b'j' ∷ [], b'2' ∷ [])

deliver-Perm_example :
    deliver naturals [] 0 [] (one ∷ two ∷ []) (some (record_counter [] 1 none ∷ [])) registry
    ≡ deliver naturals [] 0 [] (two ∷ one ∷ []) (some (record_counter [] 1 none ∷ [])) registry
deliver-Perm_example =
    deliver-Perm naturals [] 0 [] (one ∷ two ∷ []) (two ∷ one ∷ [])
      (some (record_counter [] 1 none ∷ [])) registry (Permᴰ.swap refl refl)

run-new-IsTidy_example :
    let activities = delivers 0 [] [] none ∷ scrapes 9 ∷ [] in
    IsTidy (run naturals [] activities registry)
    × ((run naturals [] activities registry).events
        ≡ with_events [] (run_refusals naturals [] activities registry))
run-new-IsTidy_example =
    run-new-IsTidy naturals []
      (record { max_series = 2; idle_ttl = some 5; default_histogram_bounds = 1 ∷ [] })
      (delivers 0 [] [] none ∷ scrapes 9 ∷ [])
