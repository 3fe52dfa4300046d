-- ===== src/Mmap/Service/Events.antt =====
-- Enqueue, Dequeue and Ack of events: what was put in comes out, and its offset commits it.
use skywalking_satellite.Base.{
  ℕ, ◌+◌, ◌%◌, ◌^◌, ◌≤◌, ◌<◌, ◌≡◌, refl, sym, subst, ap, ◌∙◌, true, false, some, List, ◌∷◌, length,
  ltb, arith, not, if◌then◌else◌,
}
use skywalking_satellite.Mmap.File.{MmapFile, System}
use skywalking_satellite.Mmap.Meta.{get_reading_offset, get_writing_offset, get_committed_offset}
use skywalking_satellite.Mmap.Outcome.{err, after, closed, too_large, Ensures, holds, Ensures-after}
use skywalking_satellite.Mmap.State.{Queue}
use skywalking_satellite.Mmap.Access.{Fits}
use skywalking_satellite.Mmap.Position.{Place, AtMost}
use skywalking_satellite.Mmap.Layout.{Laid-AtMost}
use skywalking_satellite.Mmap.Operation.{is_full, enqueue, dequeue}
use skywalking_satellite.Mmap.Offset.{encode_offset}
use skywalking_satellite.Mmap.Fifo.{Holds, needed}
use skywalking_satellite.Mmap.Fifo.Enqueue.{Enqueued, enqueue-Ensures}
use skywalking_satellite.Mmap.Fifo.Dequeue.{Dequeued, dequeue-Ensures}
use skywalking_satellite.Mmap.Service.{
  Codec, enqueue_event, enqueue_marshalled, sequence_event, dequeue_event, ack,
}
use skywalking_satellite.Mmap.Service.Flush.{ack-Recorded}

module _ (C : Codec) (F : MmapFile) (os : System) (fuel size capacity : ℕ) where
  open F use {File}
  open C use {Event, marshal, unmarshal, round_trip}

  enqueue_event-open :
      (e : Event) (q : Queue File)
      → q.ready ≡ true
      → enqueue_event C F os fuel e q ≡ enqueue_marshalled C F os fuel (marshal e) q
  unfolding enqueue_event
  enqueue_event-open e q live =
      ap (λ b. if not b then (err closed, q) else enqueue_marshalled C F os fuel (marshal e) q) live

  enqueue_marshalled-fits :
      (m : List ℕ) (q : Queue File)
      → length m ≤ q.max_event_size
      → enqueue_marshalled C F os fuel (some m) q ≡ enqueue F os fuel m q
  unfolding enqueue_marshalled
  enqueue_marshalled-fits m q short =
      let fits : ltb q.max_event_size (length m) ≡ false = ground arith in
      ap (λ b. if b then (err (too_large (length m)), q) else enqueue F os fuel m q) fits

  dequeue_event-open :
      (q : Queue File)
      → q.ready ≡ true
      → dequeue_event C F os fuel q
        ≡ after
            (dequeue F os fuel q).0
            (dequeue F os fuel q).1
            (λ out. sequence_event C F os fuel (unmarshal out.0) out.1 out.2)
  unfolding dequeue_event
  dequeue_event-open q live =
      ap
        (λ b.
          if not b
          then (err closed, q)
          else after (dequeue F os fuel q).0 (dequeue F os fuel q).1
              (λ out. sequence_event C F os fuel (unmarshal out.0) out.1 out.2))
        live

  -- An open queue that is not full takes an event whose bytes have an allowed length, and then
  -- holds its bytes last. With room in memory and files that open the call returns without an
  -- error. The largest message ends a word below the end of a segment, and no segment identifier
  -- reaches 2 ^ 63.
  pub enqueue_event-Ensures :
      (Fail : Type 0) (e : Event) (m : List ℕ) (ms : List (List ℕ)) (q : Queue File)
      → Holds F size capacity q ms
      → q.ready ≡ true
      → marshal e ≡ some m
      → length m ≤ q.max_event_size
      → q.max_event_size % size + 8 < size
      → (get_reading_offset F q.meta).0 + capacity ≤ 2 ^ 63
      → is_full F q ≡ false
      → Fits F os Fail q (needed size q.max_event_size)
      → Ensures Fail
          (λ _ t. Enqueued F os fuel size capacity m ms q t)
          (enqueue_event C F os fuel e q).0
          (enqueue_event C F os fuel e q).1
  unfolding enqueue_event
  enqueue_event-Ensures Fail e m ms q h live some_bytes short tail int space room =
      subst (λ x. Ensures Fail (λ _ t. Enqueued F os fuel size capacity m ms q t) x.0 x.1)
        (sym (
          enqueue_event-open e q live
          ∙ ap (λ o. enqueue_marshalled C F os fuel o q) some_bytes
          ∙ enqueue_marshalled-fits m q short))
        (enqueue-Ensures F os fuel size capacity Fail m ms q h short tail int space room)

  -- An open queue gives the event whose bytes it holds first, and acknowledging the offset that
  -- comes with it commits exactly the reading offset that the queue has then, and keeps the
  -- messages. With room in memory and files that open the call returns without an error. The
  -- largest message ends a word below the end of a segment.
  pub dequeue_event-Ensures :
      (Fail : Type 0) (e : Event) (m : List ℕ) (ms : List (List ℕ)) (q : Queue File)
      → Holds F size capacity q (m ∷ ms)
      → q.ready ≡ true
      → marshal e ≡ some m
      → q.max_event_size % size + 8 < size
      → Fits F os Fail q (needed size q.max_event_size)
      → Ensures Fail
          (λ out t.
            (out.0 ≡ e)
            × Holds F size capacity t ms
            × (get_committed_offset F (ack F out.1 t).meta ≡ get_reading_offset F t.meta)
            × Holds F size capacity (ack F out.1 t) ms)
          (dequeue_event C F os fuel q).0
          (dequeue_event C F os fuel q).1
  unfolding dequeue_event sequence_event
  dequeue_event-Ensures Fail e m ms q h live some_bytes tail room =
      subst (λ x. Ensures Fail Given x.0 x.1) (sym (dequeue_event-open q live))
        (Ensures-after Given _ (dequeue-Ensures F os fuel size capacity Fail m ms q h tail room)
          λ out t d.
            subst
              (λ o.
                Ensures Fail Given (sequence_event C F os fuel o out.1 out.2 t).0
                  (sequence_event C F os fuel o out.1 out.2 t).1)
              (sym (ap unmarshal d.bytes ∙ round_trip e m some_bytes)) (holds (given out t d)))
    where
      Given : Event × List ℕ → Queue File → Type 0
      Given out t =
          (out.0 ≡ e)
          × Holds F size capacity t ms
          × (get_committed_offset F (ack F out.1 t).meta ≡ get_reading_offset F t.meta)
          × Holds F size capacity (ack F out.1 t) ms

      given :
          (out : List ℕ × ℕ × ℕ) (t : Queue File)
          → Dequeued F os fuel size capacity m ms q out t
          → Given (e, encode_offset out.1 out.2) t
      given out t d =
          let acked =
            ack-Recorded F size capacity out.1 out.2 t ms (below out t d).0 (below out t d).1
              (d.same_ready ∙ live) d.holds_rest in
          (refl, d.holds_rest, acked.0.recorded ∙ d.behind, acked.1)
        where
          below :
              (out : List ℕ × ℕ × ℕ) (t : Queue File)
              → Dequeued F os fuel size capacity m ms q out t
              → (out.1 < 2 ^ 63) × (out.2 < 2 ^ 63)
          below out t d =
              let r = get_reading_offset F t.meta in
              let w = get_writing_offset F t.meta in
              let at : AtMost r w = Laid-AtMost F size capacity t.files r ms w d.holds_rest.laid in
              subst (λ (p : Place). (p.0 < 2 ^ 63) × (p.1 < 2 ^ 63)) (sym d.behind)
                (
                  omega (arith, at, d.holds_rest.int_segments),
                  omega (arith, d.holds_rest.reading_inside, d.holds_rest.int_size),
                )
