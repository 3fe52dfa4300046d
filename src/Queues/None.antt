-- ===== src/Queues/None.antt =====
-- plugins/queue/none/queue.go: the queue of the protocols that are answered directly.
use skywalking_satellite.Base.{false}
use skywalking_satellite.Queues.Api.{err_empty, err_full, Result, ok, err, SequenceEvent, QueueOps}

module _ (E : Type 0) where
  unfoldable pub enqueue : E → Unit {0} → Result (Unit {0}) × Unit {0}
  enqueue e q = (err err_full, q)

  unfoldable pub dequeue : Unit {0} → Result (SequenceEvent E) × Unit {0}
  dequeue q = (err err_empty, q)

  abbrev pub none_queue : QueueOps E
  none_queue = record {
    State = Unit {0};
    enqueue = enqueue;
    dequeue = dequeue;
    close = λ q. (ok tt, q);
    ack = λ o q. q;
    total_size = λ q. 0;
    used_count = λ q. 0;
    is_full = λ q. false;
  }
