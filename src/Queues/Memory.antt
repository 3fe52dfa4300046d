-- ===== src/Queues/Memory.antt =====
-- plugins/queue/memory/queue.go, over the FixedFIFO of github.com/enriquebris/goconcurrentqueue.
use skywalking_satellite.Base.{
  ℕ, ◌≤◌, ◌<◌, ◌≡◌, ap, ◌∙◌, ◌⊎◌, inl, inr, Bool, true, false, Bool-cases, List-cases, List, [],
  ◌∷◌, ◌++◌, length, Option, none, some, leb, arith, if◌then◌else◌,
}
use skywalking_satellite.Queues.Api.{
  err_empty, err_full, Result, ok, err, Offset, SequenceEvent, QueueOps,
}

-- The package's queue of a fixed size. `contents` observes it, the other fields are the methods:
-- Enqueue answers false for its error, Dequeue none.
pub record FixedFifo (E : Type 0) : Type 1 where
  pub Fifo : Type 0
  pub contents : Fifo → List E
  pub enqueue : E → Fifo → Bool × Fifo
  pub dequeue : Fifo → Option E × Fifo
  pub get_len : Fifo → ℕ
  pub get_cap : Fifo → ℕ
  -- a full queue refuses, another one takes the element at its end
  pub enqueue_full : (e : E) (f : Fifo) → get_cap f ≤ length (contents f) → enqueue e f ≡ (false, f)
  pub enqueue_free :
      (e : E) (f : Fifo)
      → length (contents f) < get_cap f
      → ((enqueue e f).0 ≡ true)
        × (contents (enqueue e f).1 ≡ contents f ++ (e ∷ []))
        × (get_cap (enqueue e f).1 ≡ get_cap f)
  pub dequeue_empty : (f : Fifo) → contents f ≡ [] → dequeue f ≡ (none, f)
  pub dequeue_first :
      (e : E) (es : List E) (f : Fifo)
      → contents f ≡ e ∷ es
      → ((dequeue f).0 ≡ some e)
        × (contents (dequeue f).1 ≡ es)
        × (get_cap (dequeue f).1 ≡ get_cap f)
  pub get_len_contents : (f : Fifo) → get_len f ≡ length (contents f)

-- `event_buffer_size` is EventBufferSize, the size that Initialize gives the buffer.
pub record MemoryQueue (Fifo : Type 0) : Type 0 where
  pub event_buffer_size : ℕ
  pub buffer : Fifo

abbrev pub default_offset : Offset
default_offset = record { partition = 0; position = [] }

module _ {E : Type 0} (L : FixedFifo E) where
  open L use {Fifo, contents}

  -- the answer of Enqueue to the answer of the buffer
  abbrev enqueue_result : Bool → Result (Unit {0})
  enqueue_result taken = if taken then ok tt else err err_full

  unfoldable pub enqueue : E → MemoryQueue Fifo → Result (Unit {0}) × MemoryQueue Fifo
  enqueue e q =
      (enqueue_result (L.enqueue e q.buffer).0, record q { buffer = (L.enqueue e q.buffer).1 })

  abbrev dequeue_result : Option E → Result (SequenceEvent E)
  dequeue_result none = err err_empty
  dequeue_result (some e) = ok (record { event = e; offset = default_offset })

  unfoldable pub dequeue : MemoryQueue Fifo → Result (SequenceEvent E) × MemoryQueue Fifo
  dequeue q = (dequeue_result (L.dequeue q.buffer).0, record q { buffer = (L.dequeue q.buffer).1 })

  unfoldable pub used_count : MemoryQueue Fifo → ℕ
  used_count q = L.get_len q.buffer

  unfoldable pub is_full : MemoryQueue Fifo → Bool
  unfolding used_count
  is_full q = leb q.event_buffer_size (used_count q)

  abbrev pub memory_queue : QueueOps E
  memory_queue = record {
    State = MemoryQueue Fifo;
    enqueue = enqueue;
    dequeue = dequeue;
    close = λ q. (ok tt, q);
    ack = λ o q. q;
    total_size = λ q. q.event_buffer_size;
    used_count = used_count;
    is_full = is_full;
  }

  -- The events that the queue holds, and the shape that Initialize gives it.
  abbrev pub held : MemoryQueue Fifo → List E
  held q = contents q.buffer

  abbrev pub Sound : MemoryQueue Fifo → Type 0
  Sound q = L.get_cap q.buffer ≡ q.event_buffer_size

  -- IsFull tells what Enqueue will do: on a full queue it answers ErrFull and changes nothing, on
  -- another one the event stands last and the queue stays sound.
  pub enqueue-is_full :
      (e : E) (q : MemoryQueue Fifo)
      → Sound q
      → ((is_full q ≡ true) × (enqueue e q ≡ (err err_full, q)))
        ⊎ ((is_full q ≡ false)
            × ((enqueue e q).0 ≡ ok tt)
            × (held (enqueue e q).1 ≡ held q ++ (e ∷ []))
            × Sound (enqueue e q).1)
  unfolding enqueue is_full used_count
  enqueue-is_full e q s = elim (Bool-cases (leb q.event_buffer_size (L.get_len q.buffer))) [
    | inl f ↦ inl (
      f,
      ap (λ r. (enqueue_result r.0, record q { buffer = r.1 }))
          (L.enqueue_full e q.buffer (ground (arith, f, s, L.get_len_contents q.buffer))),
    )
    | inr f ↦
        let (taken, more, same) =
          L.enqueue_free e q.buffer (ground (arith, f, s, L.get_len_contents q.buffer)) in
        inr (f, ap enqueue_result taken, more, same ∙ s)
  ]

  -- Dequeue answers ErrEmpty on an empty queue and changes nothing; on another one it gives the
  -- oldest event and keeps the others.
  pub dequeue_lem :
      (q : MemoryQueue Fifo)
      → Sound q
      → ((held q ≡ []) × (dequeue q ≡ (err err_empty, q)))
        ⊎ ((e : E) × (es : List E) × (held q ≡ e ∷ es)
            × ((dequeue q).0 ≡ ok (record { event = e; offset = default_offset }))
            × (held (dequeue q).1 ≡ es)
            × Sound (dequeue q).1)
  unfolding dequeue
  dequeue_lem q s = elim (List-cases (held q)) [
    | inl none_left ↦ inl (
      none_left,
      ap (λ r. (dequeue_result r.0, record q { buffer = r.1 }))
          (L.dequeue_empty q.buffer none_left),
    )
    | inr (e, es, first) ↦
        let (given, rest, same) = L.dequeue_first e es q.buffer first in
        inr (e, es, first, ap dequeue_result given, rest, same ∙ s)
  ]
