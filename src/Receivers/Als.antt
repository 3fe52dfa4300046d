-- ===== src/Receivers/Als.antt =====
-- plugins/receiver/grpc/envoyalsv2/als_service.go and envoyalsv3, which does the same, with the limiter
-- of internal/satellite/module/buffer/limitor.go: the messages of a stream wait in a channel until they
-- are flushed into an event.
use skywalking_satellite.Base.{
  ℕ, Option, none, some, List, [], ◌∷◌, ◌++◌, length, leb, if◌then◌else◌, ◌+◌,
}

-- The messages are bytes. `unmarshal` is proto.Unmarshal with the identifier of the message, and
-- `identify` the message with another identifier.
pub record Messages (M I : Type 0) : Type 0 where
  pub unmarshal : M → Option (Option I)
  pub identify : I → M → M

-- How a stream stands: it is open, it was left with an error about its first message, or it has ended.
pub data Phase : Type 0 where
  running refused ended : Phase

-- What a flush sent: an event with the messages that it took.
pub data Batch (M : Type 0) : Type 0 where
  event : List M → Batch M

-- `messages` is the channel, `signals` counts what Check sent to the flush channel, and `received` keeps
-- the messages that were put into the channel.
pub record Stream (M I : Type 0) : Type 0 where
  pub identity : Option I
  pub messages : List M
  pub batches : List (Batch M)
  pub signals : ℕ
  pub phase : Phase
  pub received : List M

module _ {M I : Type 0} (ops : Messages M I) where
  -- The function that is given to limiter.Start. When the first message cannot be read, there is no
  -- event, and all the messages that were taken are gone.
  unfoldable pub flush_messages : I → List M → Stream M I → Stream M I
  flush_messages identity [] t = t
  flush_messages identity (m ∷ ms) t = elim (ops.unmarshal m) [
    | none ↦ record t { messages = [] }
    | some id ↦ record t {
      messages = [];
      batches = t.batches ++ (event (ops.identify identity m ∷ ms) ∷ []);
    }
  ]

  unfoldable pub flush : Stream M I → Stream M I
  flush t = elim t.identity [ none ↦ t | some identity ↦ flush_messages identity t.messages t ]

  -- Check of the limiter asks for a flush at the limit count. The routine of the limiter makes it by itself,
  -- while messages go on coming.
  unfoldable pub check : ℕ → Stream M I → Stream M I
  check limit_count t =
      if leb limit_count (length t.messages) then record t { signals = t.signals + 1 } else t

  -- `messages <- data.Content` and the check
  unfoldable pub receive : ℕ → M → Stream M I → Stream M I
  receive limit_count m t =
      check limit_count
        (record t { messages = t.messages ++ (m ∷ []); received = t.received ++ (m ∷ []) })

  -- One round of the loop: the first message gives the identity, and without one the stream is left.
  unfoldable pub on_message : ℕ → M → Stream M I → Stream M I
  on_message limit_count m t = elim t.identity [
    | some identity ↦ receive limit_count m t
    | none ↦ elim (ops.unmarshal m) [
      | none ↦ record t { phase = refused }
      | some id ↦ elim id [
        | none ↦ record t { phase = refused }
        | some i ↦ receive limit_count m (record t { identity = some i })
      ]
    ]
  ]

-- A stream that was left takes no more messages.
unfoldable pub running_only :
    {M I : Type 0} → Phase → (Stream M I → Stream M I) → Stream M I → Stream M I
running_only running step t = step t
running_only refused step t = t
running_only ended step t = t

-- What happens on a stream, in any order: a message, a flush by the limiter, whether by its timer or
-- asked for by Check, and at the end, or when the stream is left, the flush of Stop.
pub data StreamEvent (M : Type 0) : Type 0 where
  message : M → StreamEvent M
  limiter_flush : StreamEvent M
  stop : StreamEvent M

module _ {M I : Type 0} (ops : Messages M I) (limit_count : ℕ) where
  unfoldable pub happen : StreamEvent M → Stream M I → Stream M I
  happen (message m) t = running_only t.phase (on_message ops limit_count m) t
  happen limiter_flush t = flush ops t
  happen stop t = record (flush ops t) { phase = ended }

  unfoldable pub run : List (StreamEvent M) → Stream M I → Stream M I
  run [] t = t
  run (e ∷ es) t = run es (happen e t)

-- a stream before its first message
abbrev pub new_stream : {M I : Type 0} → Stream M I
new_stream = record {
  identity = none;
  messages = [];
  batches = [];
  signals = 0;
  phase = running;
  received = [];
}
