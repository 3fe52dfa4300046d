-- ===== src/Sender/Tests.antt =====
-- The theorems of the sender at small batches.
use skywalking_satellite.Base.{
  ℕ, ◌+◌, ◌*◌, ◌≡◌, refl, true, false, some, Option, [], ◌∷◌, ◌++◌, length, arith,
}
use skywalking_satellite.Queues.Api.{Offset}
use skywalking_satellite.Sender.Buffer.{OutputEventContext, BatchBuffer, new_batch_buffer}
use skywalking_satellite.Sender.Store.{Store, begun, received, on_input}
use skywalking_satellite.Sender.Store.Order.{with_offset, Keeps, Run-Keeps}
use skywalking_satellite.Sender.Consume.{
  Forwarder, Sending, Fallbacker, consume, Consumed, consume-Consumed, of_items,
}
use skywalking_satellite.Sender.Consume.Counted.{copies}
use skywalking_satellite.Sender.Sync.{
  sync_invoke, answered, refused, could_not_found, only_single, sync_invoke_lem,
}
use skywalking_satellite.Sender.Fallback.{fall_back, Tried, fall_back-Tried}
use skywalking_satellite.Sender.Fallback
use skywalking_satellite.Sender.Shutdown.{Sender, Closing, shutdown, begun, shutdown0}
use skywalking_satellite.Sender.Shutdown.Finish.{Finished, shutdown-Finished}

abbrev at_three : Offset
at_three = record { partition = 0; position = 3 ∷ [] }

abbrev item : OutputEventContext ℕ
item = record { context = ((1 ∷ [], 5) ∷ []); offset = some at_three }

abbrev empty_two : BatchBuffer ℕ
empty_two = new_batch_buffer 2

abbrev fresh : Store ℕ
fresh = record {
  max_buffer_size = 1;
  min_flush_events = 1;
  buffer = new_batch_buffer 1;
  flushed = [];
  blocking = false;
}

Run-Keeps_example : Keeps (on_input (some item) fresh) (with_offset ([] ++ (item ∷ [])))
Run-Keeps_example =
    Run-Keeps fresh (on_input (some item) fresh) ([] ++ (item ∷ [])) refl refl (omega arith)
      (received item begun refl)

-- A forwarder whose world counts its calls, and that fails always.
abbrev failing : Forwarder ℕ ℕ
failing = record {
  forward_type = 0;
  forward = λ b w. (false, w + 1);
  supported_sync_invoke = false;
}

abbrev no_fallback : Fallbacker ℕ ℕ
no_fallback b f w = (false, w)

abbrev sending : Sending ℕ
sending = record { world = 0; success = λ _. 0; failure = λ _. 0 }

abbrev ack_world : Option Offset → ℕ → ℕ
ack_world o w = w + 100

abbrev one_item : BatchBuffer ℕ
one_item = record {
  buf = λ _. some item;
  first = some at_three;
  last = some at_three;
  size = 1;
  cap = 1;
}

consume-Consumed_example :
    Consumed
      (λ e. 0)
      (λ e. true)
      no_fallback
      (failing ∷ [])
      ack_world
      (item ∷ [])
      sending
      (consume (λ e. 0) (λ e. true) no_fallback (failing ∷ []) ack_world one_item sending)
consume-Consumed_example =
    consume-Consumed (λ e. 0) (λ e. true) no_fallback (failing ∷ []) ack_world one_item item []
      sending
      (record { filled = (refl, tt); count = refl; inside = omega arith; from = refl; to = refl })

abbrev patient : Fallback.Fallbacker
patient = record { max_attempts = 3; exponential_backoff = 2000; max_backoff = 5000 }

fall_back-Tried_example :
    Tried {Batch = ℕ} {World = ℕ} 2 5000 4
      (λ b w. (false, w + 1))
      0
      (fall_back {Batch = ℕ} {World = ℕ} patient 4 (λ b w. (false, w + 1)) 0)
fall_back-Tried_example =
    fall_back-Tried {Batch = ℕ} {World = ℕ} patient 4 (λ b w. (false, w + 1)) 0 (omega arith)

abbrev with_sync : Forwarder ℕ ℕ
with_sync = record failing { supported_sync_invoke = true }

sync_invoke_lem_example :
    (sync_invoke (λ f d. d + 1) (failing ∷ []) 4 ≡ refused could_not_found)
    × (sync_invoke (λ f d. d + 1) ((failing ∷ []) ++ (with_sync ∷ [])) 4 ≡ answered 5)
    × (sync_invoke (λ f d. d + 1) ((failing ∷ []) ++ (with_sync ∷ ([] ++ (with_sync ∷ [])))) 4
        ≡ refused only_single)
sync_invoke_lem_example =
    sync_invoke_lem (λ f d. d + 1) (failing ∷ []) [] [] with_sync with_sync 4 (refl, tt) tt refl
      refl

-- One partition with one item, and a shutdown that has just begun.
abbrev one_partition : Sender ℕ ℕ
one_partition = record {
  kind = λ e. 0;
  remote = λ e. true;
  fall_back = no_fallback;
  forwarders = failing ∷ [];
  ack = ack_world;
  count = 1;
  buffers = λ p. one_item;
}

abbrev running : Closing ℕ
running = record {
  sending = sending;
  inputs_open = true;
  shutdown_once = false;
  waiting = [];
  looping = [];
  timed_out = false;
}

shutdown-Finished_example :
    (u : Closing ℕ) × Finished one_partition
      (λ b f w. refl)
      (λ p. item ∷ [])
      (λ p. record {
        filled = (refl, tt);
        count = refl;
        inside = omega arith;
        from = refl;
        to = refl;
      })
      running
      (shutdown one_partition running)
      u
    × ((t : ℕ)
        → u.sending.success t + u.sending.failure t
          ≡ 0
            + (copies (λ e. 0) (λ e. true) no_fallback t (failing ∷ [])
                  * length (of_items (λ e. 0) (λ e. true) t (item ∷ []))
                + 0))
unfolding shutdown shutdown0
shutdown-Finished_example =
    shutdown-Finished one_partition (λ b f w. refl) (λ p. item ∷ [])
      (λ p. record {
        filled = (refl, tt);
        count = refl;
        inside = omega arith;
        from = refl;
        to = refl;
      })
      running refl refl refl (shutdown one_partition running) begun
