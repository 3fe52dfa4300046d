-- ===== src/Queues/Partition/Route.antt =====
-- An event goes to one partition, and its acknowledgement to the same.
use skywalking_satellite.Base.{
  ℕ, ◌<◌, ◌≡◌, ◌≢◌, sym, subst, ap, ◌∙◌, ◌⊎◌, inl, inr, true, false, update, update_self, update_ne,
}
use skywalking_satellite.Queues.Api.{err_full, Result, ok, err, SequenceEvent, QueueOps}
use skywalking_satellite.Queues.Partition.{
  PartitionedQueue, find_partition, enqueue_found, enqueue, tag, dequeue, ack,
}
use skywalking_satellite.Queues.Partition.Find.{find_partition-Found}

module _ {E : Type 0} (Q : QueueOps E) where
  open Q use {State, is_full}

  -- What an event does to the partitions: it went into `i`, which was not full and is the only one
  -- that changed.
  pub record WentTo (i : ℕ) (e : E) (p : PartitionedQueue State) (r : Result (Unit {0}))
      (t : PartitionedQueue State) : Type 0 where
    pub inside : i < p.partition
    pub was_free : is_full (p.sub_queues i) ≡ false
    pub answer : r ≡ (Q.enqueue e (p.sub_queues i)).0
    pub stored : t.sub_queues i ≡ (Q.enqueue e (p.sub_queues i)).1
    pub others : (j : ℕ) → j ≢ i → t.sub_queues j ≡ p.sub_queues j

  -- Enqueue puts the event into one partition that is not full and gives that partition's answer,
  -- the other partitions are left alone; or every partition is full, the answer is ErrFull and no
  -- partition is changed. There are several partitions and the index is in range.
  pub enqueue-WentTo :
      (e : E) (p : PartitionedQueue State)
      → 1 < p.partition
      → p.load_balancer_index < p.partition
      → ((i : ℕ) × WentTo i e p (enqueue Q e p).0 (enqueue Q e p).1)
        ⊎ (((enqueue Q e p).0 ≡ err err_full)
            × ((enqueue Q e p).1.sub_queues ≡ p.sub_queues)
            × ((i : ℕ) → i < p.partition → is_full (p.sub_queues i) ≡ true))
  unfolding enqueue enqueue_found
  enqueue-WentTo e p many h =
      let found = find_partition-Found Q p many h in
      let same : (find_partition Q p).1.sub_queues ≡ p.sub_queues =
        ap (λ t. t.sub_queues) found.turned in
      elim found.search [
        | inl (i, r, inside, free) ↦ inl (
          i,
          subst
              (λ x.
                WentTo i e p (enqueue_found Q e x (find_partition Q p).1).0
                  (enqueue_found Q e x (find_partition Q p).1).1)
              (sym r)
              (record {
                inside = inside;
                was_free = free;
                answer = ap (λ f. (Q.enqueue e (f i)).0) same;
                stored =
                    update_self (find_partition Q p).1.sub_queues i _
                    ∙ ap (λ f. (Q.enqueue e (f i)).1) same;
                others = λ j ne.
                    update_ne (find_partition Q p).1.sub_queues _ (λ e. ne (sym e))
                    ∙ ap (λ f. f j) same;
              }),
        )
        | inr (r, all) ↦ inr (
          ap (λ x. (enqueue_found Q e x (find_partition Q p).1).0) r,
          ap (λ x. (enqueue_found Q e x (find_partition Q p).1).1.sub_queues) r ∙ same,
          all,
        )
      ]

  partition_of : Result (SequenceEvent E) → ℕ
  partition_of (ok s) = s.offset.partition
  partition_of (err why) = 0

  tagged :
      (i : ℕ) (r : Result (SequenceEvent E)) (s : SequenceEvent E)
      → tag Q i r ≡ ok s
      → s.offset.partition ≡ i
  unfolding partition_of
  tagged i (ok x) s e = sym (ap partition_of e)
  tagged i (err why) s e = absurd (cc e)

  -- An event that was taken from a partition carries the partition's number: acknowledging its
  -- offset acknowledges it there, and neither the taking nor the acknowledging touches another
  -- partition.
  pub ack-dequeue :
      (i : ℕ) (p : PartitionedQueue State) (s : SequenceEvent E)
      → (dequeue Q i p).0 ≡ ok s
      → ((ack Q s.offset (dequeue Q i p).1).sub_queues i
          ≡ Q.ack s.offset (Q.dequeue (p.sub_queues i)).1)
        × ((j : ℕ) → j ≢ i → (ack Q s.offset (dequeue Q i p).1).sub_queues j ≡ p.sub_queues j)
  unfolding dequeue ack
  ack-dequeue i p s e =
      let at : s.offset.partition ≡ i = tagged i (Q.dequeue (p.sub_queues i)).0 s e in
      subst
        (λ k.
          (update taken k (Q.ack s.offset (taken k)) i
            ≡ Q.ack s.offset (Q.dequeue (p.sub_queues i)).1)
          × ((j : ℕ) → j ≢ i → update taken k (Q.ack s.offset (taken k)) j ≡ p.sub_queues j))
        (sym at)
        (
          update_self taken i _ ∙ ap (Q.ack s.offset) (update_self p.sub_queues i _),
          λ j ne. update_ne taken _ (λ e. ne (sym e)) ∙ update_ne p.sub_queues _ (λ e. ne (sym e)),
        )
    where
      taken : ℕ → State
      taken = update p.sub_queues i (Q.dequeue (p.sub_queues i)).1
