-- ===== src/Gatherer/Memory.antt =====
-- The memory queue counts its events as the gatherers rely on it.
use skywalking_satellite.Base.{
  ℕ, ◌+◌, ◌≡◌, refl, ap, ◌∙◌, ◌⊎◌, inl, inr, Bool-cases, List-cases, length, ltb, arith, [], ◌∷◌,
}
use skywalking_satellite.Queues.Api.{ApiError, err_empty, err_full, ok, err, SequenceEvent}
use skywalking_satellite.Queues.Memory.{
  FixedFifo, MemoryQueue, default_offset, memory_queue, held, enqueue, dequeue,
}
use skywalking_satellite.Gatherer.Weights.{Counting, weigh, weigh-append}

module _ {E : Type 0} (L : FixedFifo E) (weight : E → ℕ) where
  open L use {Fifo, contents}

  pub enqueue_count :
      (e : E) (q : MemoryQueue Fifo)
      → (((enqueue L e q).0 ≡ ok tt)
          × (weigh weight (held L (enqueue L e q).1) ≡ weigh weight (held L q) + weight e))
        ⊎ ((why : ApiError) × ((enqueue L e q).0 ≡ err why)
            × (weigh weight (held L (enqueue L e q).1) ≡ weigh weight (held L q)))
  unfolding enqueue
  enqueue_count e q = elim (Bool-cases (ltb (length (contents q.buffer)) (L.get_cap q.buffer))) [
    | inl free ↦
        let (taken, more, same) = L.enqueue_free e q.buffer (ground (arith, free)) in
        inl (
          rw taken refl,
          ap (weigh weight) more ∙ weigh-append weight (contents q.buffer) (e ∷ []) ∙ omega arith,
        )
    | inr no_room ↦
        let refused = L.enqueue_full e q.buffer (ground (arith, no_room)) in
        inr (err_full, rw refused refl, ap (λ r. weigh weight (contents r.1)) refused)
  ]

  pub dequeue_count :
      (q : MemoryQueue Fifo)
      → ((x : SequenceEvent E) × ((dequeue L q).0 ≡ ok x)
          × (weigh weight (held L q) ≡ weigh weight (held L (dequeue L q).1) + weight x.event))
        ⊎ ((why : ApiError) × ((dequeue L q).0 ≡ err why)
            × (weigh weight (held L (dequeue L q).1) ≡ weigh weight (held L q)))
  unfolding dequeue
  dequeue_count q = elim (List-cases (contents q.buffer)) [
    | inl nothing ↦
        let refused = L.dequeue_empty q.buffer nothing in
        inr (err_empty, rw refused refl, ap (λ r. weigh weight (contents r.1)) refused)
    | inr (e, es, first) ↦
        let (given, rest, same) = L.dequeue_first e es q.buffer first in
        inl (
          record { event = e; offset = default_offset },
          rw given refl,
          ap (weigh weight) first ∙ omega (arith, ap (weigh weight) rest),
        )
  ]

  abbrev pub memory_counting : Counting (memory_queue L) weight
  memory_counting = record {
    count = λ q. weigh weight (held L q);
    enqueue_count = enqueue_count;
    dequeue_count = dequeue_count;
    ack_count = λ o q. refl;
  }
