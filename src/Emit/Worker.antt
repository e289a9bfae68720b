-- ===== src/Emit/Worker.antt =====
-- crates/obs-core/src/observer/workers.rs: the worker of a tier, behind its bounded channel.
pub mod Order
pub mod Ends
use obs.Prelude.{
  ℕ, zero, suc, ◌+◌, ◌%◌, ◌^◌, max, Bool, true, false, ◌&&◌, Option, none, some, List, [], ◌∷◌,
  ◌++◌, length, ltb, if◌then◌else◌, Result, ok, err,
}

-- The channel with its sender, and what the sink was given. `out` is the sink's: the worker only
-- appends to it.
pub record TierWorker (E D : Type 0) : Type 0 where
  pub has_sender : Bool
  pub capacity : ℕ
  pub queue : List E
  pub delivered : ℕ
  pub out : List D

unfoldable pub spawn : {E D : Type 0} → ℕ → TierWorker E D
spawn capacity = record {
  has_sender = true;
  capacity = max capacity 1;
  queue = [];
  delivered = 0;
  out = [];
}

-- The envelope comes back if the channel is full or the sender is gone.
unfoldable pub try_send : {E D : Type 0} → E → TierWorker E D → Result E (TierWorker E D)
try_send env w =
    if w.has_sender && ltb (length w.queue) w.capacity
    then ok (record w { queue = w.queue ++ (env ∷ []) })
    else err env

-- `ScrubbedEnvelope::scrub` is an argument; an envelope that it refuses is dropped.
module _ {E D : Type 0} (scrub : E → Option D) where
  unfoldable pub deliver_one : E → TierWorker E D → TierWorker E D
  deliver_one env w = elim (scrub env) [ none ↦ w | some d ↦ record w { out = w.out ++ (d ∷ []) } ]

  -- One turn of the loop over the channel, for what it holds.
  unfoldable pub receive_from : List E → TierWorker E D → TierWorker E D
  unfolding deliver_one
  receive_from [] w = w
  receive_from (env ∷ envs) w =
      let w' = deliver_one env (record w { queue = envs }) in
      record w' { delivered = (w'.delivered + 1) % 2 ^ 64 }

  unfoldable pub receive : TierWorker E D → TierWorker E D
  unfolding receive_from
  receive w = receive_from w.queue w

  unfoldable pub receive_many : ℕ → TierWorker E D → TierWorker E D
  unfolding receive
  receive_many zero w = w
  receive_many (suc n) w = receive_many n (receive w)

-- Where the task of a worker is: in its loop, in the drain behind it, in the flush of the sink, or at
-- its end, where the receiver is gone.
pub data Phase : Type 0 where
  looping draining flushing ended : Phase

-- A worker with its task and the flag that `shutdown` sets.
pub record Task (E D : Type 0) : Type 0 where
  pub worker : TierWorker E D
  pub shutdown_flag : Bool
  pub phase : Phase

unfoldable pub spawn_task : {E D : Type 0} → ℕ → Task E D
unfolding spawn
spawn_task capacity = record { worker = spawn capacity; shutdown_flag = false; phase = looping }

unfoldable pub is_ended : Phase → Bool
is_ended looping = false
is_ended draining = false
is_ended flushing = false
is_ended ended = true

-- `try_send` where the task may be at its end: the channel is closed then.
unfoldable pub send_to : {E D : Type 0} → E → Task E D → Result E (TierWorker E D)
unfolding is_ended try_send
send_to env t = if is_ended t.phase then err env else try_send env t.worker

-- The two steps of `shutdown` before it waits for the task.
unfoldable pub set_flag : {E D : Type 0} → Task E D → Task E D
set_flag t = record t { shutdown_flag = true }

unfoldable pub take_sender : {E D : Type 0} → Task E D → Task E D
take_sender t = record t { worker = record t.worker { has_sender = false } }

unfoldable pub is_empty : {E : Type 0} → List E → Bool
is_empty [] = true
is_empty (env ∷ envs) = false

-- The `break` of the loop.
unfoldable pub next_phase : Bool → Phase
next_phase true = draining
next_phase false = looping

-- `recv` on a channel that is empty: it waits while there is a sender.
unfoldable pub wait_or_drain : {E D : Type 0} → Bool → Task E D → Task E D
wait_or_drain true t = t
wait_or_drain false t = record t { phase = draining }

module _ {E D : Type 0} (scrub : E → Option D) where
  -- One step of the task, by what the channel holds.
  unfoldable pub step_at : Phase → List E → Task E D → Task E D
  unfolding receive is_empty wait_or_drain next_phase
  step_at looping [] t = wait_or_drain t.worker.has_sender t
  step_at looping (env ∷ envs) t = record t {
    worker = receive scrub t.worker;
    phase = next_phase (t.shutdown_flag && is_empty envs);
  }
  step_at draining [] t = record t { phase = flushing }
  step_at draining (env ∷ envs) t = record t { worker = receive scrub t.worker }
  step_at flushing queue t = record t { phase = ended }
  step_at ended queue t = t

  unfoldable pub task_step : Task E D → Task E D
  unfolding step_at
  task_step t = step_at t.phase t.worker.queue t

  unfoldable pub task_steps : ℕ → Task E D → Task E D
  unfolding task_step
  task_steps zero t = t
  task_steps (suc n) t = task_steps n (task_step t)

  -- A shutdown that nothing comes in between: each envelope costs the task a step, and it takes three
  -- more to its end.
  unfoldable pub shutdown : Task E D → Task E D
  unfolding task_steps set_flag take_sender
  shutdown t = task_steps (length t.worker.queue + 3) (take_sender (set_flag t))

-- `note_channel_full`, by tier.
pub data Tier : Type 0 where
  unspecified log metric trace audit : Tier

pub record WorkerCounters : Type 0 where
  pub channel_full_log : ℕ
  pub channel_full_metric : ℕ
  pub channel_full_trace : ℕ
  pub channel_full_audit : ℕ

unfoldable pub note_channel_full : Tier → WorkerCounters → WorkerCounters
note_channel_full unspecified c = c
note_channel_full log c = record c { channel_full_log = (c.channel_full_log + 1) % 2 ^ 64 }
note_channel_full metric c = record c { channel_full_metric = (c.channel_full_metric + 1) % 2 ^ 64 }
note_channel_full trace c = record c { channel_full_trace = (c.channel_full_trace + 1) % 2 ^ 64 }
note_channel_full audit c = record c { channel_full_audit = (c.channel_full_audit + 1) % 2 ^ 64 }
