-- ===== src/Gatherer.antt =====
-- internal/satellite/module/gatherer: the routines that put events into the partitioned queue and
-- that hand them on to the processor, one routine per partition.
pub mod Conserve
pub mod Memory
pub mod Weights
mod Tests
use skywalking_satellite.Base.{ℕ, ◌+◌, Bool, List, [], ◌∷◌, ◌++◌, update, if◌then◌else◌}
use skywalking_satellite.Queues.Api.{
  ApiError, err_empty, err_full, err_closed, err_other, Result, ok, err, Offset, SequenceEvent,
  QueueOps,
}
use skywalking_satellite.Queues.Partition.{PartitionedQueue}
use skywalking_satellite.Queues.Partition

-- The running state of a gatherer: its queue, what it has sent on each output channel, and its
-- counters. `enqueue_error_counter` is the receiver gatherer's, by error.
pub record Gatherer (E State : Type 0) : Type 0 where
  pub running_queue : PartitionedQueue State
  pub output_channel : ℕ → List (SequenceEvent E)
  pub all : ℕ
  pub abandoned : ℕ
  pub output_success : ℕ
  pub output_error : ℕ
  pub enqueue_error_counter : ApiError → ℕ

abbrev same_error : ApiError → ApiError → ℕ
same_error err_empty err_empty = 1
same_error err_full err_full = 1
same_error err_closed err_closed = 1
same_error (err_other a) (err_other b) = 1
same_error _ _ = 0

module _ {E : Type 0} (Q : QueueOps E) where
  open Q use {State}

  -- recordEnqueueError; `due` says whether the print interval is over, and then the counts are
  -- printed and start again.
  unfoldable pub record_enqueue_error : Bool → ApiError → Gatherer E State → Gatherer E State
  record_enqueue_error due why g =
      let counts : ApiError → ℕ = λ e. g.enqueue_error_counter e + same_error why e in
      record g {
        abandoned = g.abandoned + 1;
        enqueue_error_counter = if due then (λ e. 0) else counts;
      }

  -- Behind the Enqueue of the receiver gatherer.
  unfoldable pub received : Bool → Result (Unit {0}) → Gatherer E State → Gatherer E State
  received due (ok done) g = g
  received due (err why) g = record_enqueue_error due why g

  -- `case e := <-r.runningReceiver.Channel()`
  unfoldable pub on_receive : Bool → E → Gatherer E State → Gatherer E State
  on_receive due e g =
      received due (Partition.enqueue Q e g.running_queue).0
        (record g { all = g.all + 1; running_queue = (Partition.enqueue Q e g.running_queue).1 })

  -- Behind the Enqueue of the fetcher gatherer, which has no counts by error.
  unfoldable pub fetched : Result (Unit {0}) → Gatherer E State → Gatherer E State
  fetched (ok done) g = g
  fetched (err why) g = record g { abandoned = g.abandoned + 1 }

  -- `case e := <-f.runningFetcher.Channel()`
  unfoldable pub on_fetch : E → Gatherer E State → Gatherer E State
  on_fetch e g =
      fetched (Partition.enqueue Q e g.running_queue).0
        (record g { all = g.all + 1; running_queue = (Partition.enqueue Q e g.running_queue).1 })

  -- Behind the Dequeue: an event is sent on, an empty queue is slept on, another error counted.
  unfoldable pub dequeued : ℕ → Result (SequenceEvent E) → Gatherer E State → Gatherer E State
  dequeued p (ok e) g = record g {
    output_channel = update g.output_channel p (g.output_channel p ++ (e ∷ []));
    output_success = g.output_success + 1;
  }
  dequeued p (err err_empty) g = g
  dequeued p (err err_full) g = record g { output_error = g.output_error + 1 }
  dequeued p (err err_closed) g = record g { output_error = g.output_error + 1 }
  dequeued p (err (err_other n)) g = record g { output_error = g.output_error + 1 }

  -- One round of consumeQueue, in both gatherers.
  unfoldable pub consume_queue : ℕ → Gatherer E State → Gatherer E State
  consume_queue p g =
      dequeued p (Partition.dequeue Q p g.running_queue).0
        (record g { running_queue = (Partition.dequeue Q p g.running_queue).1 })

  unfoldable pub ack : Offset → Gatherer E State → Gatherer E State
  ack o g = record g { running_queue = Partition.ack Q o g.running_queue }

  -- An error of the queue's Close is logged.
  unfoldable pub shutdown : Gatherer E State → Gatherer E State
  shutdown g = record g { running_queue = (Partition.close Q g.running_queue).1 }
