-- ===== src/Sender/Shutdown.antt =====
-- flush, Shutdown and shutdown0 of internal/satellite/module/sender/sender.go: at the end, the
-- buffers of all partitions are consumed by routines, and once more when these take too long.
pub mod Finish
use skywalking_satellite.Base.{
  ℕ, zero, suc, ◌+◌, ◌*◌, ◌≡◌, refl, sym, ap, ◌∙◌, Bool, true, false, Bool-cases, Option, none,
  some, List, [], ◌∷◌, ◌++◌, length, ◌==◌, ==_iff, if◌then◌else◌, arith, inl, inr, subst,
}
use skywalking_satellite.Queues.Api.{Offset}
use skywalking_satellite.Sender.Buffer.{OutputEventContext, BatchBuffer, Contains}
use skywalking_satellite.Sender.Consume.{
  Forwarder, Fallbacker, Sending, consume, consume-Consumed, of_items,
}
use skywalking_satellite.Sender.Consume.Counted.{copies, counted, forward_all-counted}

-- What the sender has when it shuts down: the fields Type and Remote of the events, the fallbacker,
-- the running forwarders, the acknowledgement of the gatherer, the count of its partitions and the
-- buffers by partition.
pub record Sender (Event World : Type 0) : Type 0 where
  pub kind : Event → ℕ
  pub remote : Event → Bool
  pub fall_back : Fallbacker Event World
  pub forwarders : List (Forwarder Event World)
  pub ack : Option Offset → World → World
  pub count : ℕ
  pub buffers : ℕ → BatchBuffer Event

-- shutdown0 under way: the partitions whose routine has yet to consume, and, behind the ticker, the
-- partitions that its loop has yet to consume. The buffers are not replaced.
pub record Closing (World : Type 0) : Type 0 where
  pub sending : Sending World
  pub inputs_open : Bool
  pub shutdown_once : Bool
  pub waiting : List ℕ
  pub looping : List ℕ
  pub timed_out : Bool

-- the indices of the partitions
abbrev pub partitions : ℕ → List ℕ
partitions zero = []
partitions (suc n) = partitions n ++ (n ∷ [])

unfoldable pub has : ℕ → List ℕ → Bool
has p [] = false
has p (q ∷ qs) = let rest = has p qs in if q == p then true else rest

unfoldable pub remove : ℕ → List ℕ → List ℕ
remove p [] = []
remove p (q ∷ qs) = let rest = q ∷ remove p qs in if q == p then qs else rest

module _ {Event World : Type 0} (c : Sender Event World) where
  open c use {kind, remote, fall_back, forwarders, ack, count, buffers}

  -- The case of flush that receives a batch.
  unfoldable pub on_batch : BatchBuffer Event → Closing World → Option (Closing World)
  on_batch b s = elim (consume kind remote fall_back forwarders ack b s.sending) [
    | none ↦ none
    | some after ↦ some (record s { sending = after })
  ]

  -- Up to the select of shutdown0: the inputs are closed and the routines started.
  unfoldable pub shutdown0 : Closing World → Closing World
  shutdown0 s = record s { inputs_open = false; waiting = partitions count }

  -- Shutdown, which the flush routine of every partition calls when the context is done.
  unfoldable pub shutdown : Closing World → Closing World
  shutdown s = if s.shutdown_once then s else shutdown0 (record s { shutdown_once = true })

  -- The routine of a partition.
  unfoldable pub run_routine : ℕ → Closing World → Option (Closing World)
  run_routine p s = elim (on_batch (buffers p) s) [
    | none ↦ none
    | some after ↦ some (record after { waiting = remove p s.waiting })
  ]

  -- The ticker of the select: all buffers are gone through.
  unfoldable pub on_ticker : Closing World → Closing World
  on_ticker s = record s { timed_out = true; looping = partitions count }

  unfoldable pub run_loop : ℕ → List ℕ → Closing World → Option (Closing World)
  run_loop p ps s = elim (on_batch (buffers p) s) [
    | none ↦ none
    | some after ↦ some (record after { looping = ps })
  ]

  -- Any order of the routines, the ticker and its loop. A routine's consume is one step.
  pub data Run (start : Closing World) : Closing World → Type 0 where
    begun : Run start (shutdown start)
    consumed :
        {s t : Closing World} (p : ℕ)
        → Run start s
        → has p s.waiting ≡ true
        → run_routine p s ≡ some t
        → Run start t
    fired : {s : Closing World} → Run start s → s.timed_out ≡ false → Run start (on_ticker s)
    looped :
        {s t : Closing World} (p : ℕ) (ps : List ℕ)
        → Run start s
        → s.looping ≡ p ∷ ps
        → run_loop p ps s ≡ some t
        → Run start t
