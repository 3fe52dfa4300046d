-- ===== src/Pipe.antt =====
-- A partition of a pipe, from the events that the gatherer puts out, through the processor of
-- internal/satellite/module/processor, to the batches that the sender of
-- internal/satellite/module/sender sends and acknowledges.
mod Ends
mod Tests
use skywalking_satellite.Base.{
  ◌⊎◌, ℕ, ◌≡◌, ap₂, Bool, Bool-cases, false, Option, none, some, List, [], ◌∷◌, ◌++◌, length,
  if◌then◌else◌, arith, inl, inr,
}
use skywalking_satellite.Queues.Api.{Offset, SequenceEvent}
use skywalking_satellite.Sender.Buffer.{OutputEventContext, BatchBuffer, Contains}
use skywalking_satellite.Sender.Consume.{Forwarder, Fallbacker, Sending, consume}
use skywalking_satellite.Sender.Store.{Store}
use skywalking_satellite.Sender.Store.Order.{with_offset, item_with, concat, Batches, Keeps}
use skywalking_satellite.Processor.{offsets, event_offsets, offsets-append}
use skywalking_satellite.Pipe.Ends.{Among, last_of, batch_ends}

module _ {Event : Type 0} (name : Event → List ℕ) where
  module _ {World : Type 0} (kind : Event → ℕ) (remote : Event → Bool)
      (fall_back : Fallbacker Event World) (forwarders : List (Forwarder Event World))
      (ack : Option Offset → World → World) (acks : World → List (Option Offset)) where
    -- The routine of a partition consumes what comes from its flush channel.
    unfoldable pub consume_all : List (BatchBuffer Event) → Sending World → Option (Sending World)
    consume_all [] q = some q
    consume_all (b ∷ bs) q = elim (consume kind remote fall_back forwarders ack b q) [
      | none ↦ none
      | some t ↦ consume_all bs t
    ]

    -- `acks` are the acknowledgements that the world has seen, in order.
    abbrev pub Seen : Type 0
    Seen = (o : Option Offset) (w : World) → acks (ack o w) ≡ acks w ++ (o ∷ [])

    abbrev pub Quiet : (List Event → World → Bool × World) → Type 0
    Quiet g = (es : List Event) (w : World) → acks (g es w).1 ≡ acks w

    abbrev pub QuietForwarders : List (Forwarder Event World) → Type 0
    QuietForwarders [] = Unit {0}
    QuietForwarders (f ∷ fs) = Quiet f.forward × QuietForwarders fs

    abbrev pub QuietFallback : Type 0
    QuietFallback =
        (batch : List Event) (g : List Event → World → Bool × World) (w : World)
        → Quiet g
        → acks (fall_back batch g w).1 ≡ acks w

    -- The events are those of the batches and of the buffer, in order. The batches are consumed without
    -- a panic, and what is acknowledged are the offsets at their ends, in turn: all of them offsets of
    -- the events of the batches, and the last one that of the last of these.
    pub record Delivered (es : List (SequenceEvent Event)) (s : Store Event) (q : Sending World)
        : Type 0 where
      pub batches : List (List (OutputEventContext Event))
      pub current : List (OutputEventContext Event)
      pub sent : Batches s.flushed batches
      pub buffered : Contains s.buffer current
      pub out : List (SequenceEvent Event)
      pub waiting : List (SequenceEvent Event)
      pub all_events : es ≡ out ++ waiting
      pub in_batches : offsets name (concat batches) ≡ event_offsets name out
      pub in_buffer : offsets name current ≡ event_offsets name waiting
      pub after : Sending World
      pub consumed : consume_all s.flushed q ≡ some after
      pub acked : acks after.world ≡ acks q.world ++ batch_ends batches
      pub acked_out :
          (o : Option Offset) → Among o (batch_ends batches) → Among o (event_offsets name out)
      pub last_acked : last_of none (batch_ends batches) ≡ last_of none (event_offsets name out)
