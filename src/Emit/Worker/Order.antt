-- ===== src/Emit/Worker/Order.antt =====
-- What a sink is given by the worker of its tier.
use obs.Prelude.{
  ℕ, zero, suc, ◌≤◌, ◌≡◌, refl, sym, ap, ◌∙◌, inl, inr, Bool, true, false, ◌&&◌, Bool-cases, Option,
  none, some, Option-cases, List, [], ◌∷◌, ◌++◌, append_assoc, length, length-append, ltb, Result,
  ok, err, arith,
}
use obs.Emit.Worker.{
  TierWorker, try_send, deliver_one, receive_from, receive, Phase, looping, draining, flushing,
  ended, Task, is_ended, send_to, set_flag, take_sender, wait_or_drain, step_at, task_step,
  task_steps,
}

-- Emitters, the task of the worker and a shutdown take turns in any order: an envelope is sent, the
-- task makes a step, the flag is set, or the sender is dropped.
pub data Turn (E : Type 0) : Type 0 where
  send : E → Turn E
  step_task raise_flag drop_sender : Turn E

module _ {E D : Type 0} (scrub : E → Option D) where
  -- What is delivered of some envelopes: those that the scrubber does not refuse.
  unfoldable pub scrubbed : List E → List D
  scrubbed [] = []
  scrubbed (env ∷ envs) =
      let rest = scrubbed envs in elim (scrub env) [ none ↦ rest | some d ↦ d ∷ rest ]

  -- The envelopes that were sent and did not come back, and the worker.
  unfoldable pub sent : E → Result E (TierWorker E D) → List E × Task E D → List E × Task E D
  sent env (ok w') (accepted, t) = (accepted ++ (env ∷ []), record t { worker = w' })
  sent env (err back) (accepted, t) = (accepted, t)

  unfoldable pub turns : List (Turn E) → List E × Task E D → List E × Task E D
  unfolding sent send_to task_step set_flag take_sender
  turns [] (accepted, t) = (accepted, t)
  turns (send env ∷ ts) (accepted, t) = turns ts (sent env (send_to env t) (accepted, t))
  turns (step_task ∷ ts) (accepted, t) = turns ts (accepted, task_step scrub t)
  turns (raise_flag ∷ ts) (accepted, t) = turns ts (accepted, set_flag t)
  turns (drop_sender ∷ ts) (accepted, t) = turns ts (accepted, take_sender t)

  scrubbed-append : (xs ys : List E) → scrubbed (xs ++ ys) ≡ scrubbed xs ++ scrubbed ys
  unfolding scrubbed
  scrubbed-append [] ys = refl
  scrubbed-append (x ∷ xs) ys = elim (Option-cases (scrub x)) [
    | inl e ↦ rw (scrubbed, e) (scrubbed-append xs ys)
    | inr (d, e) ↦ rw (scrubbed, e) (ap (λ t. d ∷ t) (scrubbed-append xs ys))
  ]

  receive_from-out :
      (envs : List E) (w : TierWorker E D)
      → w.queue ≡ envs
      → (receive_from scrub envs w).out ++ scrubbed (receive_from scrub envs w).queue
        ≡ w.out ++ scrubbed envs
  unfolding receive_from deliver_one scrubbed
  receive_from-out [] w e = rw e refl
  receive_from-out (env ∷ envs) w e = elim (Option-cases (scrub env)) [
    | inl f ↦ rw (receive_from, deliver_one, f, scrubbed) refl
    | inr (d, f) ↦
        rw (receive_from, deliver_one, f, scrubbed) (append_assoc w.out (d ∷ []) (scrubbed envs))
  ]

  receive_from-queue :
      (env : E) (envs : List E) (w : TierWorker E D)
      → (receive_from scrub (env ∷ envs) w).queue ≡ envs
  unfolding receive_from deliver_one
  receive_from-queue env envs w = elim (Option-cases (scrub env)) [
    | inl f ↦ rw (receive_from, deliver_one, f) refl
    | inr (d, f) ↦ rw (receive_from, deliver_one, f) refl
  ]

  receive_from-capacity :
      (envs : List E) (w : TierWorker E D) → (receive_from scrub envs w).capacity ≡ w.capacity
  unfolding receive_from deliver_one
  receive_from-capacity [] w = refl
  receive_from-capacity (env ∷ envs) w = elim (Option-cases (scrub env)) [
    | inl f ↦ rw (receive_from, deliver_one, f) refl
    | inr (d, f) ↦ rw (receive_from, deliver_one, f) refl
  ]

  pub receive-out :
      (w : TierWorker E D)
      → (receive scrub w).out ++ scrubbed (receive scrub w).queue ≡ w.out ++ scrubbed w.queue
  unfolding receive
  receive-out w = receive_from-out w.queue w refl

  length-receive : (w : TierWorker E D) → length (receive scrub w).queue ≤ length w.queue
  unfolding receive
  length-receive w = go w.queue refl
    where
      go : (envs : List E) → w.queue ≡ envs → length (receive_from scrub envs w).queue ≤ length envs
      go [] e = unfold receive_from in omega (arith, ap length e)
      go (env ∷ envs) e = omega (arith, ap length (receive_from-queue env envs w))

  pub length-receive-cons :
      (env : E) (envs : List E) (w : TierWorker E D)
      → w.queue ≡ env ∷ envs
      → (receive scrub w).queue ≡ envs
  unfolding receive
  length-receive-cons env envs w e = rw (e) (receive_from-queue env envs w)

  -- What the sink has, and what the channel holds, are together what was accepted.
  pub record IsFair (accepted : List E) (w : TierWorker E D) : Type 0 where
    pub together : w.out ++ scrubbed w.queue ≡ scrubbed accepted
    pub fits : length w.queue ≤ w.capacity

  try_send-IsFair :
      (env : E) (accepted : List E) (t : Task E D)
      → IsFair accepted t.worker
      → let after = sent env (try_send env t.worker) (accepted, t) in IsFair after.0 after.1.worker
  unfolding sent try_send
  try_send-IsFair env accepted t h =
      let w = t.worker in
      elim (Bool-cases (w.has_sender && ltb (length w.queue) w.capacity)) [
        | inr e ↦ rw (try_send, e, sent) h
        | inl e ↦
            rw (try_send, e, sent)
              (record {
                together =
                    ap (λ q. w.out ++ q) (scrubbed-append w.queue (env ∷ []))
                    ∙ sym (append_assoc w.out (scrubbed w.queue) (scrubbed (env ∷ [])))
                    ∙ ap (λ q. q ++ scrubbed (env ∷ [])) h.together
                    ∙ sym (scrubbed-append accepted (env ∷ []));
                fits = ground (arith, e, length-append {0} w.queue (env ∷ []));
              })
      ]

  sent-IsFair :
      (env : E) (accepted : List E) (t : Task E D)
      → IsFair accepted t.worker
      → let after = sent env (send_to env t) (accepted, t) in IsFair after.0 after.1.worker
  unfolding send_to sent
  sent-IsFair env accepted t h = elim (Bool-cases (is_ended t.phase)) [
    | inl e ↦ rw (send_to, e, sent) h
    | inr e ↦ rw (send_to, e) (try_send-IsFair env accepted t h)
  ]

  receive-IsFair :
      (accepted : List E) (w : TierWorker E D)
      → IsFair accepted w
      → IsFair accepted (receive scrub w)
  receive-IsFair accepted w h = record {
    together = receive-out w ∙ h.together;
    fits =
        unfold receive in
        rw (receive_from-capacity w.queue w) (omega (arith, length-receive w, h.fits));
  }

  wait_or_drain-IsFair :
      (b : Bool) (accepted : List E) (t : Task E D)
      → IsFair accepted t.worker
      → IsFair accepted (wait_or_drain b t).worker
  unfolding wait_or_drain
  wait_or_drain-IsFair true accepted t h = h
  wait_or_drain-IsFair false accepted t h = h

  step_at-IsFair :
      (p : Phase) (queue accepted : List E) (t : Task E D)
      → IsFair accepted t.worker
      → IsFair accepted (step_at scrub p queue t).worker
  unfolding step_at
  step_at-IsFair looping [] accepted t h = wait_or_drain-IsFair t.worker.has_sender accepted t h
  step_at-IsFair looping (env ∷ envs) accepted t h = receive-IsFair accepted t.worker h
  step_at-IsFair draining [] accepted t h = h
  step_at-IsFair draining (env ∷ envs) accepted t h = receive-IsFair accepted t.worker h
  step_at-IsFair flushing queue accepted t h = h
  step_at-IsFair ended queue accepted t h = h

  pub turns-IsFair :
      (ts : List (Turn E)) (accepted : List E) (t : Task E D)
      → IsFair accepted t.worker
      → let after = turns ts (accepted, t) in IsFair after.0 after.1.worker
  unfolding turns task_step set_flag take_sender
  turns-IsFair [] accepted t h = h
  turns-IsFair (send env ∷ ts) accepted t h = turns-IsFair ts _ _ (sent-IsFair env accepted t h)
  turns-IsFair (step_task ∷ ts) accepted t h =
      turns-IsFair ts accepted (task_step scrub t)
        (step_at-IsFair t.phase t.worker.queue accepted t h)
  turns-IsFair (raise_flag ∷ ts) accepted t h = turns-IsFair ts accepted (set_flag t) h
  turns-IsFair (drop_sender ∷ ts) accepted t h =
      turns-IsFair ts accepted (take_sender t) (record { together = h.together; fits = h.fits })

  pub steps-IsFair :
      (n : ℕ) (accepted : List E) (t : Task E D)
      → IsFair accepted t.worker
      → IsFair accepted (task_steps scrub n t).worker
  unfolding task_steps task_step
  steps-IsFair zero accepted t h = h
  steps-IsFair (suc n) accepted t h =
      steps-IsFair n accepted (task_step scrub t)
        (step_at-IsFair t.phase t.worker.queue accepted t h)
