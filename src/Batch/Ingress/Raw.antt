-- ===== src/Batch/Ingress/Raw.antt =====
-- What reaches the worker is the envelope as it was emitted.
use obs.Prelude.{
  ◌≡◌, refl, sym, ◌∙◌, inl, inr, true, false, Bool-cases, List, [], ◌∷◌, ◌++◌, map, length, ltb,
  ltb→lt, ltb→le,
}
use obs.Prelude.Bounded.{filled, filled-nil, filled-full, filled-room}
use obs.Batch.Ingress.{ScrubbedEnvelope, envelope, Ingress, note_dropped, deliver, deliver_all}

module _ (i : Ingress) (is_open : i.is_closed ≡ false) where
  deliver-room :
      (env : ScrubbedEnvelope)
      → ltb (length i.queue) i.capacity ≡ true
      → deliver env i ≡ record i { queue = i.queue ++ (envelope env ∷ []) }
  unfolding deliver
  deliver-room env e = rw (deliver, is_open, e) refl

  deliver-full :
      (env : ScrubbedEnvelope)
      → ltb (length i.queue) i.capacity ≡ false
      → deliver env i ≡ note_dropped i
  unfolding deliver
  deliver-full env e = rw (deliver, is_open, e) refl

-- An open channel that the worker does not empty meanwhile takes the envelopes that it has room for, in
-- order, and as they were emitted: their payloads are those from before the scrubber, and what the
-- scrubber made of them reaches the worker nowhere.
pub deliver_all_raw :
    (envs : List ScrubbedEnvelope) (i : Ingress)
    → i.is_closed ≡ false
    → (deliver_all envs i).queue ≡ filled i.capacity i.queue (map (λ s. s.inner) envs)
unfolding deliver_all envelope
deliver_all_raw [] i is_open = sym (filled-nil i.capacity i.queue)
deliver_all_raw (env ∷ envs) i is_open = elim (Bool-cases (ltb (length i.queue) i.capacity)) [
  | inl e ↦
      rw (deliver_all, deliver-room i is_open env e)
        (deliver_all_raw envs (record i { queue = i.queue ++ (env.inner ∷ []) }) is_open
          ∙ filled-room i.capacity i.queue env.inner (map (λ s. s.inner) envs) (ltb→lt _ _ e))
  | inr e ↦
      let full = ltb→le _ _ e in
      rw (deliver_all, deliver-full i is_open env e)
        (deliver_all_raw envs (note_dropped i) (unfold note_dropped in is_open)
          ∙ (unfold note_dropped in filled-full i.capacity i.queue (map (λ s. s.inner) envs) full)
          ∙ sym (filled-full i.capacity i.queue (env.inner ∷ map (λ s. s.inner) envs) full))
]
