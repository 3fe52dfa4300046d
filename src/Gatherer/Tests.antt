-- ===== src/Gatherer/Tests.antt =====
-- The balance of a gatherer over two memory queues.
use skywalking_satellite.Base.{◌∷◌, ℕ, List, [], arith, false}
use skywalking_satellite.Queues.Memory.{MemoryQueue, memory_queue}
use skywalking_satellite.Queues.Partition
use skywalking_satellite.Queues.Tests.{fifo, parted}
use skywalking_satellite.Gatherer.{dequeued, Gatherer, on_receive, consume_queue}
use skywalking_satellite.Gatherer.Conserve.{Balanced, begun, receives, consumes, Run-Balanced}
use skywalking_satellite.Gatherer.Memory.{memory_counting}

-- two events came in before, one for each partition
abbrev gatherer : Gatherer ℕ (MemoryQueue (List ℕ))
gatherer = record {
  running_queue = parted;
  output_channel = λ p. [];
  all = 2;
  abandoned = 0;
  output_success = 0;
  output_error = 0;
  enqueue_error_counter = λ e. 0;
}

-- an event that comes in when the second partition has handed one on
abbrev gone_on : Gatherer ℕ (MemoryQueue (List ℕ))
gone_on = on_receive (memory_queue fifo) false 5 (consume_queue (memory_queue fifo) 1 gatherer)

Run-Balanced_example :
    Balanced
      (memory_queue fifo)
      (λ e. e)
      (memory_counting fifo (λ e. e))
      (5 ∷ [])
      []
      gatherer
      gone_on
unfolding Partition.enqueue skywalking_satellite.Queues.Partition.find_partition
    skywalking_satellite.Queues.Partition.enqueue_found skywalking_satellite.Queues.Memory.enqueue
    consume_queue Partition.dequeue skywalking_satellite.Queues.Memory.dequeue dequeued
    Partition.search_from skywalking_satellite.Queues.Memory.is_full Partition.next_partition
Run-Balanced_example =
    Run-Balanced (memory_queue fifo) (λ e. e) (memory_counting fifo (λ e. e)) gatherer
      (omega arith, omega arith) (5 ∷ []) [] gone_on
      (receives false 5 (consumes 1 (omega arith) begun))
