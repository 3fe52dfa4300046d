-- ===== src/Pipe/Tests.antt =====
-- One event of a partition that fills a batch.
use skywalking_satellite.Sender.Consume.{Forwarder, Fallbacker, Sending}
use skywalking_satellite.Base.{◌++◌, Option, List, true, ℕ, [], ◌∷◌, false, List, Option, true}
use skywalking_satellite.Queues.Api.{SequenceEvent, Offset}
use skywalking_satellite.Sender.Buffer.{new_batch_buffer}
use skywalking_satellite.Sender.Store.{Store}

abbrev one_event : SequenceEvent ℕ
one_event = record { event = 4; offset = record { partition = 1; position = 4 ∷ [] } }

abbrev fresh_store : Store ℕ
fresh_store = record {
  max_buffer_size = 1;
  min_flush_events = 1;
  buffer = new_batch_buffer 1;
  flushed = [];
  blocking = false;
}

-- a forwarder that sends everything, and no fallback; the world are the acknowledgements
abbrev sends_all : Forwarder ℕ (List (Option Offset))
sends_all = record { forward_type = 0; forward = λ es w. (true, w); supported_sync_invoke = false }

abbrev gives_up : Fallbacker ℕ (List (Option Offset))
gives_up b g w = (false, w)

abbrev acknowledge : Option Offset → List (Option Offset) → List (Option Offset)
acknowledge o w = w ++ (o ∷ [])

abbrev idle_sending : Sending (List (Option Offset))
idle_sending = record { world = []; success = λ t. 0; failure = λ t. 0 }
