-- ===== src/Gatherer/Conserve.antt =====
-- No event is lost between the receiver and the processor without being counted as abandoned.
use skywalking_satellite.Base.{
  ◌++◌, ℕ, ◌+◌, ◌<◌, ◌≡◌, refl, sym, subst, ap, ◌⊎◌, inl, inr, Bool, Bool-cases, update, ◌==◌,
  arith, List, ◌∙◌, ◌∷◌, length, [],
}
use skywalking_satellite.Queues.Api.{
  ApiError, err_empty, err_full, err_closed, err_other, Result, ok, err, Offset, SequenceEvent,
  QueueOps,
}
use skywalking_satellite.Queues.Partition.{PartitionedQueue, find_partition, enqueue_found, tag}
use skywalking_satellite.Queues.Partition
use skywalking_satellite.Queues.Partition.Find.{find_partition-Found}
use skywalking_satellite.Gatherer.{
  Gatherer, received, record_enqueue_error, on_receive, fetched, on_fetch, dequeued, consume_queue,
  ack,
}
use skywalking_satellite.Gatherer.Weights.{
  Counting, weigh, weigh_out, weigh_out-last, total, total-update,
}

module _ {E : Type 0} (Q : QueueOps E) (weight : E → ℕ) (C : Counting Q weight) where
  open Q use {State}
  open C use {count}

  -- what the partitions hold together
  abbrev pub held : PartitionedQueue State → ℕ
  held p = total count p.partition p.sub_queues

  abbrev pub Ready : PartitionedQueue State → Type 0
  Ready p = (0 < p.partition) × (p.load_balancer_index < p.partition)

  find_partition_inside :
      (p : PartitionedQueue State)
      → Ready p
      → Ready (find_partition Q p).1
        × ((find_partition Q p).1.sub_queues ≡ p.sub_queues)
        × ((find_partition Q p).1.partition ≡ p.partition)
        × (((i : ℕ) × ((find_partition Q p).0 ≡ ok i) × (i < p.partition))
            ⊎ ((find_partition Q p).0 ≡ err err_full))
  unfolding find_partition
  find_partition_inside p r = elim (Bool-cases (p.partition == 1)) [
    | inl single ↦ rw single (r, refl, refl, inl (0, refl, r.0))
    | inr several ↦
        let found = find_partition-Found Q p (ground (arith, several, r)) r.1 in
        (
          subst Ready (sym found.turned) (r.0, grind (arith, r)),
          ap (λ t. t.sub_queues) found.turned,
          ap (λ t. t.partition) found.turned,
          elim found.search [
            | inl (i, e, inside, free) ↦ inl (i, e, inside)
            | inr (e, full) ↦ inr e
          ],
        )
  ]

  -- What an Enqueue of the partitioned queue has done to what it holds.
  abbrev Put : E → PartitionedQueue State → Result (Unit {0}) → PartitionedQueue State → Type 0
  Put e p r t =
      Ready t
      × (t.partition ≡ p.partition)
      × (((r ≡ ok tt) × (held t ≡ held p + weight e))
          ⊎ ((why : ApiError) × (r ≡ err why) × (held t ≡ held p)))

  enqueue_found-Put :
      (e : E) (i : ℕ) (p : PartitionedQueue State)
      → Ready p
      → i < p.partition
      → Put e p (enqueue_found Q e (ok i) p).0 (enqueue_found Q e (ok i) p).1
  unfolding enqueue_found
  enqueue_found-Put e i p r inside =
      let moved =
        total-update count p.partition i p.sub_queues (Q.enqueue e (p.sub_queues i)).1 inside in
      (
        r,
        refl,
        elim (C.enqueue_count e (p.sub_queues i)) [
          | inl (done, more) ↦ inl (done, omega (arith, moved, more))
          | inr (why, refused, same) ↦ inr (why, refused, omega (arith, moved, same))
        ],
      )

  enqueue-Put :
      (e : E) (p : PartitionedQueue State)
      → Ready p
      → Put e p (Partition.enqueue Q e p).0 (Partition.enqueue Q e p).1
  unfolding Partition.enqueue enqueue_found
  enqueue-Put e p r =
      let (ready, same, size, found) = find_partition_inside p r in
      let held_same : held (find_partition Q p).1 ≡ held p = λ i. total count (size i) (same i) in
      subst
        (λ n.
          Ready (Partition.enqueue Q e p).1
          × ((Partition.enqueue Q e p).1.partition ≡ p.partition)
          × ((((Partition.enqueue Q e p).0 ≡ ok tt)
                × (held (Partition.enqueue Q e p).1 ≡ n + weight e))
              ⊎ ((why : ApiError) × ((Partition.enqueue Q e p).0 ≡ err why)
                  × (held (Partition.enqueue Q e p).1 ≡ n))))
        held_same
        (with_size size (elim found [
          | inl (i, at, inside) ↦
              subst
                (λ x.
                  Put e (find_partition Q p).1 (enqueue_found Q e x (find_partition Q p).1).0
                    (enqueue_found Q e x (find_partition Q p).1).1)
                (sym at)
                (enqueue_found-Put e i (find_partition Q p).1 ready (omega (arith, inside, size)))
          | inr full ↦
              subst
                (λ x.
                  Put e (find_partition Q p).1 (enqueue_found Q e x (find_partition Q p).1).0
                    (enqueue_found Q e x (find_partition Q p).1).1)
                (sym full) (full_found e (find_partition Q p).1 ready)
        ]))
    where
      with_size :
          (find_partition Q p).1.partition ≡ p.partition
          → Put e (find_partition Q p).1 (Partition.enqueue Q e p).0 (Partition.enqueue Q e p).1
          → Ready (Partition.enqueue Q e p).1
            × ((Partition.enqueue Q e p).1.partition ≡ p.partition)
            × (((Partition.enqueue Q e p).0 ≡ ok tt)
                  × (held (Partition.enqueue Q e p).1 ≡ held (find_partition Q p).1 + weight e)
                ⊎ ((why : ApiError) × ((Partition.enqueue Q e p).0 ≡ err why)
                    × (held (Partition.enqueue Q e p).1 ≡ held (find_partition Q p).1)))
      with_size size put = (put.0, put.1 ∙ size, put.2)

      full_found :
          (e : E) (p : PartitionedQueue State)
          → Ready p
          → Put e p (enqueue_found Q e (err err_full) p).0 (enqueue_found Q e (err err_full) p).1
      full_found e p r = (r, refl, inr (err_full, refl, refl))

  -- What went out to the processors of the first `n` partitions, weighed and counted.
  abbrev pub out : ℕ → Gatherer E State → ℕ
  out n g = total (weigh_out weight) n g.output_channel

  abbrev pub out_count : ℕ → Gatherer E State → ℕ
  out_count n g = total (weigh_out (λ e. 1)) n g.output_channel

  -- From a start to a state that has taken in `ins` and abandoned `lost`: the events that came in and
  -- those that were there are those that were abandoned, that are in the queue, or that went out on
  -- the channels; and the counters count them.
  pub record Balanced (ins lost : List E) (start g : Gatherer E State) : Type 0 where
    pub ready : Ready g.running_queue
    pub same_partitions : g.running_queue.partition ≡ start.running_queue.partition
    pub events :
        weigh weight ins + held start.running_queue + out start.running_queue.partition start
        ≡ weigh weight lost + held g.running_queue + out start.running_queue.partition g
    pub all_counted : g.all ≡ start.all + length ins
    pub abandoned_counted : g.abandoned ≡ start.abandoned + length lost
    pub output_counted :
        g.output_success + out_count start.running_queue.partition start
        ≡ start.output_success + out_count start.running_queue.partition g

  -- the event, if it was refused
  abbrev pub refused : Result (Unit {0}) → E → List E
  refused (ok done) e = []
  refused (err why) e = e ∷ []

  received-Balanced :
      (due : Bool) (e : E) (ins lost : List E) (start g : Gatherer E State)
      → Balanced ins lost start g
      → Balanced
          (e ∷ ins)
          (refused (Partition.enqueue Q e g.running_queue).0 e ++ lost)
          start
          (on_receive Q due e g)
  unfolding on_receive received record_enqueue_error
  received-Balanced due e ins lost start g b =
      let (ready, size, result) = enqueue-Put e g.running_queue b.ready in
      elim result [
        | inl (done, more) ↦ rw done (record {
          ready = ready;
          same_partitions = size ∙ b.same_partitions;
          events = omega (arith, more, b.events);
          all_counted = omega (arith, b.all_counted);
          abandoned_counted = b.abandoned_counted;
          output_counted = b.output_counted;
        })
        | inr (why, rejected, same) ↦ rw rejected (record {
          ready = ready;
          same_partitions = size ∙ b.same_partitions;
          events = omega (arith, same, b.events);
          all_counted = omega (arith, b.all_counted);
          abandoned_counted = omega (arith, b.abandoned_counted);
          output_counted = b.output_counted;
        })
      ]

  fetched-Balanced :
      (e : E) (ins lost : List E) (start g : Gatherer E State)
      → Balanced ins lost start g
      → Balanced
          (e ∷ ins)
          (refused (Partition.enqueue Q e g.running_queue).0 e ++ lost)
          start
          (on_fetch Q e g)
  unfolding on_fetch fetched
  fetched-Balanced e ins lost start g b =
      let (ready, size, result) = enqueue-Put e g.running_queue b.ready in
      elim result [
        | inl (done, more) ↦ rw done (record {
          ready = ready;
          same_partitions = size ∙ b.same_partitions;
          events = omega (arith, more, b.events);
          all_counted = omega (arith, b.all_counted);
          abandoned_counted = b.abandoned_counted;
          output_counted = b.output_counted;
        })
        | inr (why, rejected, same) ↦ rw rejected (record {
          ready = ready;
          same_partitions = size ∙ b.same_partitions;
          events = omega (arith, same, b.events);
          all_counted = omega (arith, b.all_counted);
          abandoned_counted = omega (arith, b.abandoned_counted);
          output_counted = b.output_counted;
        })
      ]

  -- What a queue held that now holds `n`, by the answer of its Dequeue.
  abbrev Before : Result (SequenceEvent E) → ℕ → ℕ → Type 0
  Before (ok x) n before = before ≡ n + weight x.event
  Before (err why) n before = before ≡ n

  dequeued-Balanced :
      (p : ℕ) (r : Result (SequenceEvent E)) (ins lost : List E) (start g : Gatherer E State)
      (q : PartitionedQueue State)
      → p < start.running_queue.partition
      → Ready q
      → q.partition ≡ start.running_queue.partition
      → Before r (held q) (held g.running_queue)
      → Balanced ins lost start g
      → Balanced ins lost start (dequeued Q p r (record g { running_queue = q }))
  unfolding dequeued
  dequeued-Balanced p (ok x) ins lost start g q inside r size h b =
      let n = start.running_queue.partition in
      let channel = g.output_channel in
      record {
        ready = r;
        same_partitions = size;
        events = omega (
          arith,
          b.events,
          h,
          total-update (weigh_out weight) n p channel (channel p ++ (x ∷ [])) inside,
          weigh_out-last weight (channel p) x,
        );
        all_counted = b.all_counted;
        abandoned_counted = b.abandoned_counted;
        output_counted = omega (
          arith,
          b.output_counted,
          total-update (weigh_out (λ e. 1)) n p channel (channel p ++ (x ∷ [])) inside,
          weigh_out-last (λ e. 1) (channel p) x,
        );
      }
  dequeued-Balanced p (err err_empty) ins lost start g q inside r size h b = record {
    ready = r;
    same_partitions = size;
    events = omega (arith, b.events, h);
    all_counted = b.all_counted;
    abandoned_counted = b.abandoned_counted;
    output_counted = b.output_counted;
  }
  dequeued-Balanced p (err err_full) ins lost start g q inside r size h b = record {
    ready = r;
    same_partitions = size;
    events = omega (arith, b.events, h);
    all_counted = b.all_counted;
    abandoned_counted = b.abandoned_counted;
    output_counted = b.output_counted;
  }
  dequeued-Balanced p (err err_closed) ins lost start g q inside r size h b = record {
    ready = r;
    same_partitions = size;
    events = omega (arith, b.events, h);
    all_counted = b.all_counted;
    abandoned_counted = b.abandoned_counted;
    output_counted = b.output_counted;
  }
  dequeued-Balanced p (err (err_other n)) ins lost start g q inside r size h b = record {
    ready = r;
    same_partitions = size;
    events = omega (arith, b.events, h);
    all_counted = b.all_counted;
    abandoned_counted = b.abandoned_counted;
    output_counted = b.output_counted;
  }

  consumed-Balanced :
      (p : ℕ) (ins lost : List E) (start g : Gatherer E State)
      → p < g.running_queue.partition
      → Balanced ins lost start g
      → Balanced ins lost start (consume_queue Q p g)
  unfolding consume_queue Partition.dequeue
  consumed-Balanced p ins lost start g inside b =
      dequeued-Balanced p _ ins lost start g _ (omega (arith, inside, b.same_partitions)) b.ready
        b.same_partitions (before (C.dequeue_count (g.running_queue.sub_queues p))) b
    where
      s : State
      s = g.running_queue.sub_queues p

      left : ℕ
      left =
          total count g.running_queue.partition
            (update g.running_queue.sub_queues p (Q.dequeue s).1)

      moved : left + count s ≡ held g.running_queue + count (Q.dequeue s).1
      moved =
          total-update count g.running_queue.partition p g.running_queue.sub_queues (Q.dequeue s).1
            inside

      before :
          ((x : SequenceEvent E) × ((Q.dequeue s).0 ≡ ok x)
              × (count s ≡ count (Q.dequeue s).1 + weight x.event))
            ⊎ ((why : ApiError) × ((Q.dequeue s).0 ≡ err why) × (count (Q.dequeue s).1 ≡ count s))
          → Before (tag Q p (Q.dequeue s).0) left (held g.running_queue)
      before (inl (x, given, less)) =
          subst (λ r. Before (tag Q p r) left (held g.running_queue)) (sym given)
            (omega (arith, moved, less))
      before (inr (why, rejected, same)) =
          subst (λ r. Before (tag Q p r) left (held g.running_queue)) (sym rejected)
            (omega (arith, moved, same))

  acked-Balanced :
      (o : Offset) (ins lost : List E) (start g : Gatherer E State)
      → o.partition < g.running_queue.partition
      → Balanced ins lost start g
      → Balanced ins lost start (ack Q o g)
  unfolding ack Partition.ack
  acked-Balanced o ins lost start g inside b = record {
    ready = b.ready;
    same_partitions = b.same_partitions;
    events = omega (
      arith,
      b.events,
      C.ack_count o (g.running_queue.sub_queues o.partition),
      total-update count g.running_queue.partition o.partition g.running_queue.sub_queues
          (Q.ack o (g.running_queue.sub_queues o.partition)) inside,
    );
    all_counted = b.all_counted;
    abandoned_counted = b.abandoned_counted;
    output_counted = b.output_counted;
  }

  -- Any interleaving of the routines of a gatherer and of acknowledgements, with the events that came
  -- in and those of them that the queue refused, newest first.
  pub data Run (start : Gatherer E State) : List E → List E → Gatherer E State → Type 0 where
    begun : Run start [] [] start
    receives :
        {ins lost : List E} {g : Gatherer E State} (due : Bool) (e : E)
        → Run start ins lost g
        → Run start
            (e ∷ ins)
            (refused (Partition.enqueue Q e g.running_queue).0 e ++ lost)
            (on_receive Q due e g)
    fetches :
        {ins lost : List E} {g : Gatherer E State} (e : E)
        → Run start ins lost g
        → Run start
            (e ∷ ins)
            (refused (Partition.enqueue Q e g.running_queue).0 e ++ lost)
            (on_fetch Q e g)
    consumes :
        {ins lost : List E} {g : Gatherer E State} (p : ℕ)
        → p < g.running_queue.partition
        → Run start ins lost g
        → Run start ins lost (consume_queue Q p g)
    acks :
        {ins lost : List E} {g : Gatherer E State} (o : Offset)
        → o.partition < g.running_queue.partition
        → Run start ins lost g
        → Run start ins lost (ack Q o g)

  -- However the routines of a gatherer interleave with acknowledgements, and whatever weight the
  -- events have, over queues that keep the weight of what they hold: the events that came in, with
  -- those that the partitions held and those that had gone out before, weigh what the events that
  -- were refused, those that the partitions hold and those on the output channels weigh. The
  -- counter of all events has grown by the number that came in, that of the abandoned by the number
  -- refused, and that of the successes by what was added to the channels. There is a partition and
  -- the index is in range at the start.
  pub Run-Balanced :
      (start : Gatherer E State)
      → Ready start.running_queue
      → (ins lost : List E) (g : Gatherer E State) → Run start ins lost g
      → Balanced ins lost start g
  Run-Balanced start ready _ _ _ begun = record {
    ready = ready;
    same_partitions = refl;
    events = omega arith;
    all_counted = omega arith;
    abandoned_counted = omega arith;
    output_counted = refl;
  }
  Run-Balanced start ready _ _ _ (receives {ins = ins} {lost = lost} {g = g} due e r) =
      received-Balanced due e ins lost start g (Run-Balanced start ready ins lost g r)
  Run-Balanced start ready _ _ _ (fetches {ins = ins} {lost = lost} {g = g} e r) =
      fetched-Balanced e ins lost start g (Run-Balanced start ready ins lost g r)
  Run-Balanced start ready ins lost _ (consumes {g = g} p inside r) =
      consumed-Balanced p ins lost start g inside (Run-Balanced start ready ins lost g r)
  Run-Balanced start ready ins lost _ (acks {g = g} o inside r) =
      acked-Balanced o ins lost start g inside (Run-Balanced start ready ins lost g r)
