-- ===== src/Receivers/Collect.antt =====
-- plugins/receiver/grpc/nativemeter/meter_service.go and nativelog/log_report_service.go: the messages
-- of one stream leave in one event.
use skywalking_satellite.Base.{
  ◌≡◌, sym, ap, ◌∙◌, Bool, true, false, Option, none, some, List, [], ◌∷◌, ◌++◌, map, append_assoc,
  append-nil,
}

-- What Recv answers: a message, io.EOF, or another error.
pub data Received (M : Type 0) : Type 0 where
  item : M → Received M
  eof : Received M
  failed : Received M

module _ {M : Type 0} where
  -- flushMeter and flushLogs: the events that are sent to the receive channel
  unfoldable pub flush : List M → List (List M)
  flush [] = []
  flush (m ∷ data_list) = (m ∷ data_list) ∷ []

  -- Collect: whether it ends without an error, and the events. None while it waits for more.
  unfoldable pub collect : List M → List (Received M) → Option (Bool × List (List M))
  collect data_list [] = none
  collect data_list (item m ∷ received) = collect (data_list ++ (m ∷ [])) received
  collect data_list (eof ∷ received) = some (true, flush data_list)
  collect data_list (failed ∷ received) = some (false, flush data_list)

  -- CollectBatch of the meter service: every message is an event of its own.
  unfoldable pub collect_batch : List M → List (Received M) → Option (Bool × List M)
  collect_batch events [] = none
  collect_batch events (item m ∷ received) = collect_batch (events ++ (m ∷ [])) received
  collect_batch events (eof ∷ received) = some (true, events)
  collect_batch events (failed ∷ received) = some (false, events)

  collect-item :
      (ms data_list : List M) (received : List (Received M))
      → collect data_list (map item ms ++ received) ≡ collect (data_list ++ ms) received
  unfolding collect
  collect-item [] data_list received = ap (λ l. collect l received) (sym (append-nil data_list))
  collect-item (m ∷ ms) data_list received =
      collect-item ms (data_list ++ (m ∷ [])) received
      ∙ ap (λ l. collect l received) (append_assoc data_list (m ∷ []) ms)

  collect_batch-item :
      (ms events : List M) (received : List (Received M))
      → collect_batch events (map item ms ++ received) ≡ collect_batch (events ++ ms) received
  unfolding collect_batch
  collect_batch-item [] events received =
      ap (λ l. collect_batch l received) (sym (append-nil events))
  collect_batch-item (m ∷ ms) events received =
      collect_batch-item ms (events ++ (m ∷ [])) received
      ∙ ap (λ l. collect_batch l received) (append_assoc events (m ∷ []) ms)

  -- Whether the stream ends or fails: the messages that came before leave in one event, in their order,
  -- and there is no event without a message. CollectBatch sends an event for each of them.
  pub collect_lem :
      (ms : List M) (rest : List (Received M))
      → (collect [] (map item ms ++ (eof ∷ rest)) ≡ some (true, flush ms))
        × (collect [] (map item ms ++ (failed ∷ rest)) ≡ some (false, flush ms))
        × (collect_batch [] (map item ms ++ (eof ∷ rest)) ≡ some (true, ms))
        × (collect_batch [] (map item ms ++ (failed ∷ rest)) ≡ some (false, ms))
  unfolding collect collect_batch
  collect_lem ms rest = (
    collect-item ms [] (eof ∷ rest),
    collect-item ms [] (failed ∷ rest),
    collect_batch-item ms [] (eof ∷ rest),
    collect_batch-item ms [] (failed ∷ rest),
  )
