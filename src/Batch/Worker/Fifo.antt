-- ===== src/Batch/Worker/Fifo.antt =====
-- What each event does to the queue of a partition: what has left it, then what it holds.
use obs.Prelude.{
  ◌≡◌, refl, sym, ap, ◌∙◌, ◌⊎◌, inl, inr, true, false, Bool-cases, Option, none, some, Option-cases,
  List, [], ◌∷◌, ◌++◌, append_assoc, append-nil, ltb, leb, length, if◌then◌else◌,
}
use obs.Wire.Message.{Message}
use obs.Batch.Spool.{u32_max}
use obs.Batch.Worker.State.{
  BatchBackend, IsKeyed, BatchConfig, World, Fate, Partition, Worker, opt_eq, find, delete, emit,
  leave,
}
use obs.Batch.Worker.Admit.{
  entry, report_overflow, count_evicted, pop_front, make_room, push_back, should_flush, settle,
  push_and_settle, reject, admit, flush_key, flush_keys, drain_key, drain_keys, ring_cap, contains,
  hash_partition_hex,
}
use obs.Batch.Worker.Leaves.{IsAside}
use obs.Batch.Worker.Queue.{
  gone, gone-append, share, Flushes, flush_partition-Flushes, drain_envelopes-Flushes,
}
use obs.Batch.Worker.Map.{opt_eq→eq, find-key, find-delete}

unfoldable pub envelopes_of : {E K : Type 0} → Option (Partition E K) → List E
envelopes_of none = []
envelopes_of (some p) = p.envelopes

module _ {E K Body : Type 0} (b : BatchBackend E K Body) where
  unfoldable pub held : Option K → Worker E K → List E
  unfolding envelopes_of
  held j w = envelopes_of (find b j w.partitions)

  -- The queue of `j` from its first envelope on.
  unfoldable pub queue : Option K → Worker E K → List E
  unfolding held
  queue j w = gone b j w.left ++ held j w

-- What an event brings to the queue of `j`: an envelope with this key that is not too large.
unfoldable pub taken :
    {E K Body : Type 0} → Message E → BatchBackend E K Body → Option K → E → List E
unfolding share
taken m b j env =
    if ltb u32_max (m.compute_size env) then [] else share b j (b.partition_key env) (env ∷ [])

module _ {E K Body : Type 0} (m : Message E) (b : BatchBackend E K Body) (keyed : IsKeyed b)
    (config : BatchConfig) (world : World K Body) where
  held-delete :
      (j k : Option K) (w : Worker E K) (ps : List (Partition E K))
      → w.partitions ≡ delete b k ps
      → held b j w ≡ (if opt_eq b k j then [] else envelopes_of (find b j ps))
  unfolding held envelopes_of
  held-delete j k w ps e = elim (Bool-cases (opt_eq b k j)) [
    | inl f ↦ rw (held, e, find-delete b keyed j k ps, f) refl
    | inr f ↦ rw (held, e, find-delete b keyed j k ps, f) refl
  ]

  -- A partition that was taken from the map is flushed: the queues are as if it stood there again.
  queue-flush :
      (j : Option K) (p : Partition E K) (w w' : Worker E K) (ps : List (Partition E K))
      → w.partitions ≡ delete b p.key ps
      → Flushes b p.key p.envelopes w w'
      → queue b j w'
        ≡ gone b j w.left ++ (if opt_eq b p.key j then p.envelopes else envelopes_of (find b j ps))
  unfolding queue share
  queue-flush j p w w' ps taken f = elim (Bool-cases (opt_eq b p.key j)) [
    | inl e ↦
        rw (queue, f.goes j, share, e, held-delete j p.key w' ps (f.partitions_stay ∙ taken), e)
          (append-nil _)
    | inr e ↦
        rw (queue, f.goes j, share, e, held-delete j p.key w' ps (f.partitions_stay ∙ taken), e)
          (ap (λ t. t ++ envelopes_of (find b j ps)) (append-nil _))
  ]

  queue-settle :
      (j : Option K) (p : Partition E K) (w : Worker E K)
      → queue b j (settle m b config world p w)
        ≡ gone b j w.left ++ (if opt_eq b p.key j then p.envelopes else held b j w)
  unfolding settle held
  queue-settle j p w = elim (Bool-cases (should_flush config p)) [
    | inl e ↦
        rw (settle, e)
          (queue-flush j p (record w { partitions = delete b p.key w.partitions }) _ w.partitions
            refl (flush_partition-Flushes m b config world p _))
    | inr e ↦ rw (settle, e) (stays (Bool-cases (opt_eq b p.key j)))
  ]
    where
      stays :
          (opt_eq b p.key j ≡ true) ⊎ (opt_eq b p.key j ≡ false)
          → queue b j (record w { partitions = p ∷ delete b p.key w.partitions })
            ≡ gone b j w.left
              ++ (if opt_eq b p.key j then p.envelopes else envelopes_of (find b j w.partitions))
      stays (inl f) = unfold queue find envelopes_of in rw f refl
      stays (inr f) =
          unfold queue find envelopes_of in rw (f, find-delete b keyed j p.key w.partitions, f) refl

-- An eviction moves the front of the partition to what has left it.
record MakesRoom {E K Body : Type 0} (b : BatchBackend E K Body) (p : Partition E K)
    (w : Worker E K) (r : Partition E K × Worker E K) : Type 0 where
  same_key : r.0.key ≡ p.key
  same_partitions : r.1.partitions ≡ w.partitions
  moved :
      (j : Option K)
      → gone b j r.1.left ++ share b j p.key r.0.envelopes
        ≡ gone b j w.left ++ share b j p.key p.envelopes

module _ {E K Body : Type 0} (m : Message E) (b : BatchBackend E K Body) (keyed : IsKeyed b)
    (config : BatchConfig) (world : World K Body) where
  report_overflow-IsAside :
      (p : Partition E K) (w : Worker E K) → IsAside w (report_overflow m b config world p w)
  unfolding report_overflow emit
  report_overflow-IsAside p w =
      elim (Bool-cases
        (contains (hash_partition_hex m b config world p.key_hex) w.overflow_reported)) [
          | inl e ↦
              rw (report_overflow, e)
                (record { same_partitions = refl; same_left = refl; same_evicted = refl })
          | inr e ↦
              rw (report_overflow, e)
                (record { same_partitions = refl; same_left = refl; same_evicted = refl })
        ]

  share-cons :
      (j key : Option K) (old : E) (envs : List E)
      → share b j key (old ∷ []) ++ share b j key envs ≡ share b j key (old ∷ envs)
  unfolding share
  share-cons j key old envs = elim (Bool-cases (opt_eq b key j)) [
    | inl e ↦ rw (share, e) refl
    | inr e ↦ rw (share, e) refl
  ]

  pop_front-MakesRoom :
      (envs : List E) (p : Partition E K) (w : Worker E K)
      → p.envelopes ≡ envs
      → MakesRoom b p w (pop_front m b config world envs p w)
  unfolding pop_front count_evicted leave
  pop_front-MakesRoom [] p w e = record {
    same_key = refl;
    same_partitions = refl;
    moved = λ j. refl;
  }
  pop_front-MakesRoom (old ∷ envs) p w e =
      let w1 = count_evicted (leave Fate.is_evicted p.key (old ∷ []) w) in
      let aside = report_overflow-IsAside p w1 in
      record {
        same_key = refl;
        same_partitions = aside.same_partitions;
        moved = λ j.
            rw
              (aside.same_left, gone-append b j w.left ((Fate.is_evicted, p.key, old ∷ []) ∷ []), e)
              (unfold gone share in
                append_assoc (gone b j w.left) _ _
                ∙ ap (λ t. gone b j w.left ++ t)
                    (ap (λ t. t ++ share b j p.key envs) (append-nil (share b j p.key (old ∷ [])))
                      ∙ share-cons j p.key old envs));
      }

  make_room-MakesRoom :
      (p : Partition E K) (w : Worker E K) → MakesRoom b p w (make_room m b config world p w)
  unfolding make_room
  make_room-MakesRoom p w = elim (Bool-cases (leb (ring_cap config) (length p.envelopes))) [
    | inl e ↦ rw (make_room, e) (pop_front-MakesRoom p.envelopes p w refl)
    | inr e ↦
        rw (make_room, e) (record { same_key = refl; same_partitions = refl; moved = λ j. refl })
  ]

  entry-key : (k : Option K) (ps : List (Partition E K)) → (entry m b config world k ps).key ≡ k
  unfolding entry
  entry-key k ps = elim (Option-cases (find b k ps)) [
    | inl e ↦ rw (entry, e) refl
    | inr (p, e) ↦ rw (entry, e) (find-key b keyed k ps e)
  ]

  entry-envelopes :
      (k : Option K) (w : Worker E K)
      → (entry m b config world k w.partitions).envelopes ≡ held b k w
  unfolding entry held envelopes_of
  entry-envelopes k w = elim (Option-cases (find b k w.partitions)) [
    | inl e ↦ rw (entry, held, e) refl
    | inr (p, e) ↦ rw (entry, held, e) refl
  ]

  push_and_settle-queue :
      (j k : Option K) (env : E) (p : Partition E K) (w : Worker E K)
      (r : Partition E K × Worker E K)
      → p.key ≡ k
      → p.envelopes ≡ held b k w
      → MakesRoom b p w r
      → queue b j (push_and_settle m b config world env r) ≡ queue b j w ++ share b j k (env ∷ [])
  unfolding push_and_settle push_back share queue
  push_and_settle-queue j k env p w r is_k holds room =
      let key : r.0.key ≡ k = room.same_key ∙ is_k in
      queue-settle m b keyed config world j (push_back m env r.0) r.1
      ∙ elim (Bool-cases (opt_eq b k j)) [
        | inl e ↦
            let moved : gone b j r.1.left ++ r.0.envelopes ≡ gone b j w.left ++ p.envelopes =
              rw (is_k, share, e) at (room.moved j) in
            let mine : p.envelopes ≡ held b j w =
              holds ∙ ap (λ i. held b i w) (opt_eq→eq b keyed k j e) in
            rw (key, e, queue, share)
              (sym (append_assoc (gone b j r.1.left) r.0.envelopes (env ∷ []))
                ∙ ap (λ t. t ++ (env ∷ [])) (moved ∙ ap (λ t. gone b j w.left ++ t) mine))
        | inr e ↦
            let moved : gone b j r.1.left ++ [] ≡ gone b j w.left ++ [] =
              rw (is_k, share, e) at (room.moved j) in
            let same : gone b j r.1.left ≡ gone b j w.left =
              sym (append-nil _) ∙ moved ∙ append-nil _ in
            let others : held b j r.1 ≡ held b j w =
              unfold held in ap (λ ps. envelopes_of (find b j ps)) room.same_partitions in
            rw (key, e, queue, same, others) (sym (append-nil _))
      ]

  pub queue-admit :
      (j : Option K) (env : E) (w : Worker E K)
      → queue b j (admit m b config world env w) ≡ queue b j w ++ taken m b j env
  unfolding admit taken reject emit queue held
  queue-admit j env w = elim (Bool-cases (ltb u32_max (m.compute_size env))) [
    | inl e ↦ rw (admit, e, taken) (sym (append-nil (queue b j w)))
    | inr e ↦
        let k = b.partition_key env in
        let p = entry m b config world k w.partitions in
        rw (admit, e, taken)
          (push_and_settle-queue j k env p w (make_room m b config world p w)
            (entry-key k w.partitions) (entry-envelopes k w) (make_room-MakesRoom p w))
  ]

  -- A partition that is taken from the map and flushed or drained changes no queue.
  queue-take :
      (j k : Option K) (p : Partition E K) (w w' : Worker E K)
      → find b k w.partitions ≡ some p
      → Flushes b p.key p.envelopes (record w { partitions = delete b k w.partitions }) w'
      → queue b j w' ≡ queue b j w
  unfolding queue held
  queue-take j k p w w' e f =
      let is_k = find-key b keyed k w.partitions e in
      queue-flush m b keyed config world j p (record w { partitions = delete b k w.partitions }) w'
        w.partitions (ap (λ i. delete b i w.partitions) (sym is_k)) f
      ∙ elim (Bool-cases (opt_eq b p.key j)) [
        | inl s ↦
            let is_j : k ≡ j = sym is_k ∙ opt_eq→eq b keyed p.key j s in
            let found : find b j w.partitions ≡ some p = rw is_j at e in
            rw (s, queue, held, found) (unfold envelopes_of in refl)
        | inr s ↦ rw (s, queue, held) refl
      ]

  queue-flush_key :
      (j k : Option K) (w : Worker E K) → queue b j (flush_key m b config world k w) ≡ queue b j w
  unfolding flush_key
  queue-flush_key j k w = elim (Option-cases (find b k w.partitions)) [
    | inl e ↦ rw (flush_key, e) refl
    | inr (p, e) ↦
        rw (flush_key, e) (queue-take j k p w _ e (flush_partition-Flushes m b config world p _))
  ]

  queue-drain_key :
      (j k : Option K) (w : Worker E K) → queue b j (drain_key m b config world k w) ≡ queue b j w
  unfolding drain_key
  queue-drain_key j k w = elim (Option-cases (find b k w.partitions)) [
    | inl e ↦ rw (drain_key, e) refl
    | inr (p, e) ↦
        rw (drain_key, e)
          (queue-take j k p w _ e
            (drain_envelopes-Flushes m b config world p.key p.key_hex p.envelopes _))
  ]

  pub queue-flush_keys :
      (j : Option K) (ks : List (Option K)) (w : Worker E K)
      → queue b j (flush_keys m b config world ks w) ≡ queue b j w
  unfolding flush_keys
  queue-flush_keys j [] w = refl
  queue-flush_keys j (k ∷ ks) w =
      queue-flush_keys j ks (flush_key m b config world k w) ∙ queue-flush_key j k w

  pub queue-drain_keys :
      (j : Option K) (ks : List (Option K)) (w : Worker E K)
      → queue b j (drain_keys m b config world ks w) ≡ queue b j w
  unfolding drain_keys
  queue-drain_keys j [] w = refl
  queue-drain_keys j (k ∷ ks) w =
      queue-drain_keys j ks (drain_key m b config world k w) ∙ queue-drain_key j k w
