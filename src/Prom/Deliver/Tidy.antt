-- ===== src/Prom/Deliver/Tidy.antt =====
-- What holds of a registry whatever is delivered and scraped.
use obs.Prelude.{
  ℕ, ◌≡◌, refl, sym, ap, ◌∙◌, inl, inr, Option, none, some, Option-cases, List, [], ◌∷◌, ◌++◌, Text,
  codes,
}
use obs.Prom.Series.{Float, counter, gauge_u64, gauge_f64, histogram}
use obs.Prom.Names.{counter_metric_name}
use obs.Prom.Registry.{PromConfig, Inner, new, evict_idle}
use obs.Prom.Registry.Cap.{
  IsTidy, update-IsTidy, evict_idle-IsTidy, new-IsTidy, refusal, with_events, update-events,
}
use obs.Prom.Deliver.{
  Emitter, Call, record_counter, record_gauge_u64, record_gauge_f64, record_histogram,
  with_attributes, insert_series, call, calls, deliver, compose_key, sort,
}

-- An envelope, or a scrape, which starts with the eviction of idle series; each with its time.
pub data Activity (F : Type 0) : Type 0 where
  delivers : ℕ → Text → List (Text × Text) → Option (List (Call F)) → Activity F
  scrapes : ℕ → Activity F

module _ {F : Type 0} (f64 : Float F) (classic : List F) where
  unfoldable pub run : List (Activity F) → Inner F → Inner F
  unfolding deliver evict_idle
  run [] i = i
  run (delivers now full_name labels cs ∷ activities) i =
      run activities (deliver f64 classic now full_name labels cs i)
  run (scrapes now ∷ activities) i = run activities (evict_idle now i)

  call-IsTidy :
      (now : ℕ) (c : Call F) (e : Emitter) (i : Inner F)
      → IsTidy i
      → IsTidy (call f64 classic now c e i).1
  unfolding call insert_series
  call-IsTidy now (record_counter instrument value unit) e i t = update-IsTidy f64 _ _ _ _ now i t
  call-IsTidy now (record_gauge_u64 instrument value unit) e i t = update-IsTidy f64 _ _ _ _ now i t
  call-IsTidy now (record_gauge_f64 instrument value unit) e i t = update-IsTidy f64 _ _ _ _ now i t
  call-IsTidy now (record_histogram instrument value unit bounds) e i t =
      update-IsTidy f64 _ _ _ _ now i t
  call-IsTidy now (with_attributes attrs) e i t = t

  calls-IsTidy :
      (now : ℕ) (cs : List (Call F)) (e : Emitter) (i : Inner F)
      → IsTidy i
      → IsTidy (calls f64 classic now cs e i)
  unfolding calls
  calls-IsTidy now [] e i t = t
  calls-IsTidy now (c ∷ cs) e i t = calls-IsTidy now cs _ _ (call-IsTidy now c e i t)

  run-IsTidy : (activities : List (Activity F)) (i : Inner F) → IsTidy i → IsTidy (run activities i)
  unfolding run deliver
  run-IsTidy [] i t = t
  run-IsTidy (delivers now full_name labels none ∷ activities) i t =
      run-IsTidy activities _ (update-IsTidy f64 _ _ _ _ now i t)
  run-IsTidy (delivers now full_name labels (some cs) ∷ activities) i t =
      run-IsTidy activities _ (calls-IsTidy now cs _ i t)
  run-IsTidy (scrapes now ∷ activities) i t = run-IsTidy activities _ (evict_idle-IsTidy now i t)

  -- The names of the series that are refused, in the order of the recordings.
  unfoldable pub call_refusals : ℕ → Call F → Emitter → Inner F → List Text
  unfolding refusal compose_key
  call_refusals now (record_counter instrument value unit) e i =
      refusal (compose_key e instrument counter) i
  call_refusals now (record_gauge_u64 instrument value unit) e i =
      refusal (compose_key e instrument gauge_u64) i
  call_refusals now (record_gauge_f64 instrument value unit) e i =
      refusal (compose_key e instrument gauge_f64) i
  call_refusals now (record_histogram instrument value unit bounds) e i =
      refusal (compose_key e instrument histogram) i
  call_refusals now (with_attributes attrs) e i = []

  unfoldable pub calls_refusals : ℕ → List (Call F) → Emitter → Inner F → List Text
  unfolding call_refusals call
  calls_refusals now [] e i = []
  calls_refusals now (c ∷ cs) e i =
      call_refusals now c e i
      ++ calls_refusals now cs (call f64 classic now c e i).0 (call f64 classic now c e i).1

  unfoldable pub deliver_refusals :
      ℕ → Text → List (Text × Text) → Option (List (Call F)) → Inner F → List Text
  unfolding refusal calls_refusals counter_metric_name sort
  deliver_refusals now full_name labels none i =
      refusal (record { name = counter_metric_name (full_name ++ codes ".count"); labels = [] }) i
  deliver_refusals now full_name labels (some cs) i =
      calls_refusals now cs (record { prefix = full_name; labels = sort labels; extra_attrs = [] })
        i

  unfoldable pub run_refusals : List (Activity F) → Inner F → List Text
  unfolding deliver_refusals deliver evict_idle
  run_refusals [] i = []
  run_refusals (delivers now full_name labels cs ∷ activities) i =
      deliver_refusals now full_name labels cs i
      ++ run_refusals activities (deliver f64 classic now full_name labels cs i)
  run_refusals (scrapes now ∷ activities) i = run_refusals activities (evict_idle now i)

  with_events-append :
      (xs ys events : List Text)
      → with_events events (xs ++ ys) ≡ with_events (with_events events xs) ys
  unfolding with_events
  with_events-append [] ys events = refl
  with_events-append (x ∷ xs) ys events = with_events-append xs ys _

  call-events :
      (now : ℕ) (c : Call F) (e : Emitter) (i : Inner F)
      → IsTidy i
      → (call f64 classic now c e i).1.events ≡ with_events i.events (call_refusals now c e i)
  unfolding call insert_series call_refusals with_events
  call-events now (record_counter instrument value unit) e i t = update-events f64 _ _ _ _ now i t
  call-events now (record_gauge_u64 instrument value unit) e i t = update-events f64 _ _ _ _ now i t
  call-events now (record_gauge_f64 instrument value unit) e i t = update-events f64 _ _ _ _ now i t
  call-events now (record_histogram instrument value unit bounds) e i t =
      update-events f64 _ _ _ _ now i t
  call-events now (with_attributes attrs) e i t = refl

  calls-events :
      (now : ℕ) (cs : List (Call F)) (e : Emitter) (i : Inner F)
      → IsTidy i
      → (calls f64 classic now cs e i).events ≡ with_events i.events (calls_refusals now cs e i)
  unfolding calls calls_refusals with_events
  calls-events now [] e i t = refl
  calls-events now (c ∷ cs) e i t =
      let next = call f64 classic now c e i in
      calls-events now cs next.0 next.1 (call-IsTidy now c e i t)
      ∙ ap (λ es. with_events es (calls_refusals now cs next.0 next.1)) (call-events now c e i t)
      ∙ sym (with_events-append (call_refusals now c e i) _ i.events)

  evict_idle-events : (now : ℕ) (i : Inner F) → (evict_idle now i).events ≡ i.events
  unfolding evict_idle
  evict_idle-events now i = elim (Option-cases i.config.idle_ttl) [
    | inl e ↦ rw (evict_idle, e) refl
    | inr (ttl, e) ↦ rw (evict_idle, e) refl
  ]

  deliver-IsTidy :
      (now : ℕ) (full_name : Text) (labels : List (Text × Text)) (cs : Option (List (Call F)))
      (i : Inner F)
      → IsTidy i
      → IsTidy (deliver f64 classic now full_name labels cs i)
  unfolding deliver
  deliver-IsTidy now full_name labels none i t = update-IsTidy f64 _ _ _ _ now i t
  deliver-IsTidy now full_name labels (some cs) i t = calls-IsTidy now cs _ i t

  deliver-events :
      (now : ℕ) (full_name : Text) (labels : List (Text × Text)) (cs : Option (List (Call F)))
      (i : Inner F)
      → IsTidy i
      → (deliver f64 classic now full_name labels cs i).events
        ≡ with_events i.events (deliver_refusals now full_name labels cs i)
  unfolding deliver deliver_refusals
  deliver-events now full_name labels none i t = update-events f64 _ _ _ _ now i t
  deliver-events now full_name labels (some cs) i t = calls-events now cs _ i t

  run-events :
      (activities : List (Activity F)) (i : Inner F)
      → IsTidy i
      → (run activities i).events ≡ with_events i.events (run_refusals activities i)
  unfolding run run_refusals with_events
  run-events [] i t = refl
  run-events (delivers now full_name labels cs ∷ activities) i t =
      let next = deliver f64 classic now full_name labels cs i in
      run-events activities next (deliver-IsTidy now full_name labels cs i t)
      ∙ ap (λ es. with_events es (run_refusals activities next))
          (deliver-events now full_name labels cs i t)
      ∙ sym (with_events-append (deliver_refusals now full_name labels cs i) _ i.events)
  run-events (scrapes now ∷ activities) i t =
      run-events activities (evict_idle now i) (evict_idle-IsTidy now i t)
      ∙ ap (λ es. with_events es (run_refusals activities (evict_idle now i)))
          (evict_idle-events now i)

  -- Whatever is delivered and scraped, one at a time, the table never has more series than the cap and
  -- no key twice; and the events are the names of the series that were refused because the table was
  -- full, each name once, at its first refusal.
  pub run-new-IsTidy :
      (config : PromConfig F) (activities : List (Activity F))
      → IsTidy (run activities (new config))
        × ((run activities (new config)).events
            ≡ with_events [] (run_refusals activities (new config)))
  unfolding new
  run-new-IsTidy config activities = (
    run-IsTidy activities (new config) (new-IsTidy config),
    run-events activities (new config) (new-IsTidy config),
  )
