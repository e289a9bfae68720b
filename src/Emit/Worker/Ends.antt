-- ===== src/Emit/Worker/Ends.antt =====
-- The task of a worker ends once its sender is dropped (crates/obs-core/src/observer/workers.rs).
use mathlib.Core.Path.{subst}
use obs.Prelude.{
  ℕ, zero, suc, ◌+◌, ◌≤◌, ◌≡◌, refl, sym, ap, ◌∙◌, ◌⊎◌, inl, inr, Bool, true, false, ◌&&◌, Option,
  Option-cases, List, [], ◌∷◌, ◌++◌, append-nil, length, arith,
}
use obs.Emit.Worker.{
  TierWorker, deliver_one, receive_from, receive, Phase, looping, draining, flushing, ended, Task,
  spawn_task, spawn, set_flag, take_sender, is_empty, next_phase, wait_or_drain, step_at, task_step,
  task_steps, shutdown,
}
use obs.Emit.Worker.Order.{
  Turn, turns, scrubbed, IsFair, turns-IsFair, steps-IsFair, length-receive-cons,
}

-- How many steps a task is from its end, once its sender is dropped.
rank {ℓ} : {E : Type ℓ} → Phase → List E → ℕ
rank looping queue = length queue + 3
rank draining queue = length queue + 2
rank flushing queue = 1
rank ended queue = 0

-- Behind its drain a task has left nothing in the channel.
abbrev Clear {ℓ} : {E : Type ℓ} → Phase → List E → Type ℓ
Clear looping queue = Unit
Clear draining queue = Unit
Clear flushing queue = queue ≡ []
Clear ended queue = queue ≡ []

-- A task is behind its drain.
unfoldable pub is_past : Phase → Bool
is_past looping = false
is_past draining = false
is_past flushing = true
is_past ended = true

module _ {E D : Type 0} (scrub : E → Option D) where
  -- What a task without a sender is like, at most `n` steps from its end.
  record Near (n : ℕ) (t : Task E D) : Type 0 where
    no_sender : t.worker.has_sender ≡ false
    clear : Clear t.phase t.worker.queue
    close : rank t.phase t.worker.queue ≤ n

  receive_from-sender :
      (envs : List E) (w : TierWorker E D) → (receive_from scrub envs w).has_sender ≡ w.has_sender
  unfolding receive_from deliver_one
  receive_from-sender [] w = refl
  receive_from-sender (env ∷ envs) w = elim (Option-cases (scrub env)) [
    | inl f ↦ rw (receive_from, deliver_one, f) refl
    | inr (d, f) ↦ rw (receive_from, deliver_one, f) refl
  ]

  next_phase-rank : (b : Bool) (envs : List E) → rank (next_phase b) envs ≤ length envs + 3
  unfolding next_phase rank
  next_phase-rank true envs = omega arith
  next_phase-rank false envs = omega arith

  next_phase-Clear : (b : Bool) (envs : List E) → Clear (next_phase b) envs
  unfolding next_phase
  next_phase-Clear true envs = tt
  next_phase-Clear false envs = tt

  wait_or_drain-Near :
      (n : ℕ) (b : Bool) (t : Task E D)
      → b ≡ false
      → t.worker.has_sender ≡ false
      → length t.worker.queue + 3 ≤ suc n
      → Near n (wait_or_drain b t)
  unfolding wait_or_drain rank
  wait_or_drain-Near n true t e h small = absurd (cc)
  wait_or_drain-Near n false t e h small = record {
    no_sender = h;
    clear = tt;
    close = omega (arith, small);
  }

  step_at-Near :
      (n : ℕ) (p : Phase) (queue : List E) (t : Task E D)
      → t.worker.queue ≡ queue
      → t.phase ≡ p
      → t.worker.has_sender ≡ false
      → Clear p queue
      → rank p queue ≤ suc n
      → Near n (step_at scrub p queue t)
  unfolding step_at rank
  step_at-Near n looping [] t q e h clear small =
      wait_or_drain-Near n t.worker.has_sender t h h (omega (arith, small, ap length q))
  step_at-Near n looping (env ∷ envs) t q e h clear small =
      let left = length-receive-cons scrub env envs t.worker q in
      let b = t.shutdown_flag && is_empty envs in
      record {
        no_sender = unfold receive in receive_from-sender t.worker.queue t.worker ∙ h;
        clear = subst (λ r. Clear (next_phase b) r) (sym left) (next_phase-Clear b envs);
        close =
            subst (λ r. rank (next_phase b) r ≤ n) (sym left)
              (omega (arith, small, next_phase-rank b envs));
      }
  step_at-Near n draining [] t q e h clear small = record {
    no_sender = h;
    clear = q;
    close = omega (arith, small);
  }
  step_at-Near n draining (env ∷ envs) t q e h clear small =
      let left = length-receive-cons scrub env envs t.worker q in
      record {
        no_sender = unfold receive in receive_from-sender t.worker.queue t.worker ∙ h;
        clear = subst (λ p. Clear p (receive scrub t.worker).queue) (sym e) tt;
        close =
            subst (λ p. rank p (receive scrub t.worker).queue ≤ n) (sym e)
              (omega (arith, small, ap length left));
      }
  step_at-Near n flushing queue t q e h clear small = record {
    no_sender = h;
    clear = q ∙ clear;
    close = omega arith;
  }
  step_at-Near n ended queue t q e h clear small = record {
    no_sender = h;
    clear = subst (λ p. Clear p t.worker.queue) (sym e) (q ∙ clear);
    close = subst (λ p. rank p t.worker.queue ≤ n) (sym e) (omega arith);
  }

  near_end :
      (p : Phase) (queue : List E) → Clear p queue → rank p queue ≤ 0 → (p ≡ ended) × (queue ≡ [])
  unfolding rank
  near_end looping queue clear small = absurd (omega (arith, small))
  near_end draining queue clear small = absurd (omega (arith, small))
  near_end flushing queue clear small = absurd (omega (arith, small))
  near_end ended queue clear small = (refl, clear)

  task_steps-ended :
      (n : ℕ) (t : Task E D)
      → Near n t
      → let t' = task_steps scrub n t in (t'.phase ≡ ended) × (t'.worker.queue ≡ [])
  unfolding task_steps task_step
  task_steps-ended zero t h = near_end t.phase t.worker.queue h.clear h.close
  task_steps-ended (suc n) t h =
      task_steps-ended n (task_step scrub t)
        (step_at-Near n t.phase t.worker.queue t refl refl h.no_sender h.clear h.close)

  not_past-Near :
      (p : Phase) (t : Task E D)
      → t.phase ≡ p
      → (is_past p ≡ true) ⊎ Near (length t.worker.queue + 3) (take_sender (set_flag t))
  unfolding is_past take_sender set_flag rank
  not_past-Near looping t e = inr (record {
    no_sender = refl;
    clear = subst (λ p. Clear p t.worker.queue) (sym e) tt;
    close = subst (λ p. rank p t.worker.queue ≤ length t.worker.queue + 3) (sym e) (omega arith);
  })
  not_past-Near draining t e = inr (record {
    no_sender = refl;
    clear = subst (λ p. Clear p t.worker.queue) (sym e) tt;
    close = subst (λ p. rank p t.worker.queue ≤ length t.worker.queue + 3) (sym e) (omega arith);
  })
  not_past-Near flushing t e = inl refl
  not_past-Near ended t e = inl refl

  shutdown-delivers :
      (accepted : List E) (t : Task E D)
      → IsFair scrub accepted t.worker
      → Near (length t.worker.queue + 3) (take_sender (set_flag t))
      → ((shutdown scrub t).phase ≡ ended)
        × ((shutdown scrub t).worker.out ≡ scrubbed scrub accepted)
  unfolding shutdown scrubbed
  shutdown-delivers accepted t fair near =
      let n = length t.worker.queue + 3 in
      let start = take_sender (set_flag t) in
      let at_end = task_steps-ended n start near in
      let h =
        steps-IsFair scrub n accepted start
          (unfold take_sender set_flag in record { together = fair.together; fits = fair.fits }) in
      (
        at_end.0,
        sym (append-nil (task_steps scrub n start).worker.out)
            ∙ subst
                (λ q.
                  (task_steps scrub n start).worker.out ++ scrubbed scrub q
                  ≡ scrubbed scrub accepted)
                at_end.1 h.together,
      )

  -- Whatever turns the emitters, the task of the worker and a shutdown take, the sink has been given
  -- accepted envelopes in the order in which they were accepted, less those that the scrubber refuses,
  -- and the rest is in the channel, which keeps to its capacity. If the task is not behind its drain, a
  -- shutdown that nothing comes in between ends the task with all accepted envelopes given to the sink.
  pub turns-spawn_delivers :
      (capacity : ℕ) (ts : List (Turn E))
      → let (accepted, t) = turns scrub ts ([], spawn_task capacity) in
        (t.worker.out ++ scrubbed scrub t.worker.queue ≡ scrubbed scrub accepted)
        × (length t.worker.queue ≤ t.worker.capacity)
        × ((is_past t.phase ≡ true)
            ⊎ (((shutdown scrub t).phase ≡ ended)
                × ((shutdown scrub t).worker.out ≡ scrubbed scrub accepted)))
  unfolding spawn_task spawn scrubbed
  turns-spawn_delivers capacity ts =
      let after = turns scrub ts ([], spawn_task capacity) in
      let h =
        turns-IsFair scrub ts [] (spawn_task capacity)
          (record { together = refl; fits = omega arith }) in
      (
        h.together,
        h.fits,
        elim (not_past-Near after.1.phase after.1 refl) [
          | inl past ↦ inl past
          | inr near ↦ inr (shutdown-delivers after.0 after.1 h near)
        ],
      )
