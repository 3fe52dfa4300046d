-- ===== src/Queues/Partition.antt =====
-- plugins/queue/partition/partitioned_queue.go: one queue per partition, filled in turn.
pub mod Find
pub mod Route
pub mod Initialize
use skywalking_satellite.Base.{
  ℕ, zero, suc, ◌+◌, ◌-◌, Bool, true, false, not, List, ltb, leb, ◌==◌, update, if◌then◌else◌,
}
use skywalking_satellite.Queues.Api.{
  ApiError, err_full, Result, ok, err, Offset, SequenceEvent, QueueOps,
}

-- `sub_queues` by partition; the count is Partition, which is also the length of subQueues.
pub record PartitionedQueue (State : Type 0) : Type 0 where
  pub partition : ℕ
  pub sub_queues : ℕ → State
  pub load_balancer_index : ℕ

module _ {E : Type 0} (Q : QueueOps E) where
  open Q use {State}

  -- The loop on loadBalancerIndex: the next index, or back to zero at the end. Calls come from the
  -- one routine that enqueues, so that its CompareAndSwap succeeds. The count is an int32.
  unfoldable pub next_partition : PartitionedQueue State → ℕ × PartitionedQueue State
  next_partition p =
      let result = p.load_balancer_index + 1 in
      if ltb result p.partition
      then (result, record p { load_balancer_index = result })
      else (0, record p { load_balancer_index = 0 })

  -- `for addition := 1; addition < p.Partition; addition++`: the first argument counts the rounds.
  unfoldable pub find_other : ℕ → ℕ → ℕ → PartitionedQueue State → Result ℕ
  find_other zero addition partition p = err err_full
  find_other (suc rounds) addition partition p =
      let check =
        if leb p.partition (partition + addition)
        then partition + addition - p.partition
        else partition + addition in
      let rest = find_other rounds (addition + 1) partition p in
      if not (Q.is_full (p.sub_queues check)) then ok check else rest

  -- the check of the partition and then of the others
  unfoldable pub search_from : ℕ → PartitionedQueue State → Result ℕ × PartitionedQueue State
  search_from partition p =
      let rest = find_other (p.partition - 1) 1 partition p in
      if not (Q.is_full (p.sub_queues partition)) then (ok partition, p) else (rest, p)

  unfoldable pub find_partition : PartitionedQueue State → Result ℕ × PartitionedQueue State
  find_partition p =
      if p.partition == 1 then (ok 0, p) else search_from (next_partition p).0 (next_partition p).1

  -- An operation on the sub queue of one partition.
  abbrev pub on_partition :
      {A : Type 0} → ℕ → (State → A × State) → PartitionedQueue State → A × PartitionedQueue State
  on_partition i f p = (
    (f (p.sub_queues i)).0,
    record p { sub_queues = update p.sub_queues i (f (p.sub_queues i)).1 },
  )

  -- Enqueue behind findPartition
  unfoldable pub enqueue_found :
      E → Result ℕ → PartitionedQueue State → Result (Unit {0}) × PartitionedQueue State
  enqueue_found e (err why) p = (err why, p)
  enqueue_found e (ok partition) p = on_partition partition (Q.enqueue e) p

  unfoldable pub enqueue : E → PartitionedQueue State → Result (Unit {0}) × PartitionedQueue State
  enqueue e p = enqueue_found e (find_partition p).0 (find_partition p).1

  abbrev pub tag : ℕ → Result (SequenceEvent E) → Result (SequenceEvent E)
  tag partition (ok s) = ok (record s { offset = record s.offset { partition = partition } })
  tag partition (err why) = err why

  unfoldable pub dequeue :
      ℕ → PartitionedQueue State → Result (SequenceEvent E) × PartitionedQueue State
  dequeue partition p =
      on_partition partition (λ s. (tag partition (Q.dequeue s).0, (Q.dequeue s).1)) p

  unfoldable pub ack : Offset → PartitionedQueue State → PartitionedQueue State
  ack o p = record p {
    sub_queues = update p.sub_queues o.partition (Q.ack o (p.sub_queues o.partition));
  }

  unfoldable pub total_partition_count : PartitionedQueue State → ℕ
  total_partition_count p = p.partition

  -- The loop of Close from the partition `i` on; it ends at the first error.
  unfoldable pub close_from :
      ℕ → ℕ → PartitionedQueue State → Result (Unit {0}) × PartitionedQueue State
  close_from zero i p = (ok tt, p)
  close_from (suc n) i p =
      let (o, t) = on_partition i Q.close p in
      elim o [ err why ↦ (err why, t) | ok done ↦ close_from n (i + 1) t ]

  unfoldable pub close : PartitionedQueue State → Result (Unit {0}) × PartitionedQueue State
  close p = close_from p.partition 0 p
