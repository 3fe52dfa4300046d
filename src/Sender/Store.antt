-- ===== src/Sender/Store.antt =====
-- The routines store and listen of internal/satellite/module/sender/sender.go.
pub mod Order
use skywalking_satellite.Base.{
  ℕ, ◌<◌, ◌≡◌, refl, sym, subst, ap, ◌∙◌, ◌⊎◌, inl, inr, Bool, true, false, Bool-cases, Option,
  none, some, List, [], ◌∷◌, ◌++◌, append_assoc, append-nil, leb, ◌==◌, if◌then◌else◌, arith,
}
use skywalking_satellite.Queues.Api.{Offset}
use skywalking_satellite.Sender.Buffer.{
  OutputEventContext, BatchBuffer, new_batch_buffer, add, Contains, new_batch_buffer-Contains,
  add-Contains, add_cap,
}

-- client.ClientStatus
pub data ClientStatus : Type 0 where
  connected disconnect : ClientStatus

-- One partition of the sender: its buffer, and the batches that it has sent on its flush channel,
-- oldest first. `blocking` is shared by the partitions.
pub record Store (Event : Type 0) : Type 0 where
  pub max_buffer_size : ℕ
  pub min_flush_events : ℕ
  pub buffer : BatchBuffer Event
  pub flushed : List (BatchBuffer Event)
  pub blocking : Bool

module _ {Event : Type 0} where
  -- The send on the flush channel and the new buffer.
  unfoldable pub send_buffer : Store Event → Store Event
  send_buffer s = record s {
    flushed = s.flushed ++ (s.buffer ∷ []);
    buffer = new_batch_buffer s.max_buffer_size;
  }

  unfoldable pub on_tick : Store Event → Store Event
  on_tick s = if leb s.min_flush_events s.buffer.size then send_buffer s else s

  -- Behind the receive of an item that is not nil.
  unfoldable pub put_item : OutputEventContext Event → Store Event → Store Event
  put_item e s =
      let t = record s { buffer = add e s.buffer } in
      if t.buffer.size == t.max_buffer_size then send_buffer t else t

  unfoldable pub on_input : Option (OutputEventContext Event) → Store Event → Store Event
  on_input none s = s
  on_input (some e) s = put_item e s

  unfoldable pub on_status : ClientStatus → Store Event → Store Event
  on_status connected s = record s { blocking = false }
  on_status disconnect s = record s { blocking = true }

  -- Any order of the routines' steps. While the client is disconnected, store receives nothing.
  pub data Run (start : Store Event) : List (OutputEventContext Event) → Store Event → Type 0 where
    begun : Run start [] start
    ticked :
        {xs : List (OutputEventContext Event)} {s : Store Event}
        → Run start xs s
        → s.blocking ≡ false
        → Run start xs (on_tick s)
    closed :
        {xs : List (OutputEventContext Event)} {s : Store Event}
        → Run start xs s
        → s.blocking ≡ false
        → Run start xs (on_input none s)
    received :
        {xs : List (OutputEventContext Event)} {s : Store Event} (e : OutputEventContext Event)
        → Run start xs s
        → s.blocking ≡ false
        → Run start (xs ++ (e ∷ [])) (on_input (some e) s)
    listened :
        {xs : List (OutputEventContext Event)} {s : Store Event} (status : ClientStatus)
        → Run start xs s
        → Run start xs (on_status status s)
