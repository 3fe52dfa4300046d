-- ===== src/Queues/Api.antt =====
-- plugins/queue/api and internal/satellite/event: what a queue offers, and what goes through it.
use skywalking_satellite.Base.{ℕ, Bool, List}

pub data ApiError : Type 0 where
  err_empty err_full err_closed : ApiError
  err_other : ℕ → ApiError

pub data Result (A : Type 0) : Type 0 where
  ok : A → Result A
  err : ApiError → Result A

pub record Offset : Type 0 where
  pub partition : ℕ
  pub position : List ℕ

pub record SequenceEvent (E : Type 0) : Type 0 where
  pub event : E
  pub offset : Offset

-- api.Queue: the operations, each with the state that it leaves.
pub record QueueOps (E : Type 0) : Type 1 where
  pub State : Type 0
  pub enqueue : E → State → Result (Unit {0}) × State
  pub dequeue : State → Result (SequenceEvent E) × State
  pub close : State → Result (Unit {0}) × State
  pub ack : Offset → State → State
  pub total_size : State → ℕ
  pub used_count : State → ℕ
  pub is_full : State → Bool
