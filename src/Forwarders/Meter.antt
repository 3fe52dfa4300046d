-- ===== src/Forwarders/Meter.antt =====
-- plugins/forwarder/grpc/nativemeter/forwarder.go: a stream for every service instance, all of which
-- are closed at the end of the batch.
use skywalking_satellite.Base.{
  ℕ, ◌≡◌, refl, ap, ◌∙◌, Bool, true, false, Bool-cases, Option, none, some, Option-cases, List, [],
  ◌∷◌, ◌++◌, if◌then◌else◌, Text, text_eq, inr, inl,
}
use skywalking_satellite.Forwarders.Net.{
  Net, open_stream, send_msg, pending, send_msg-pending, open_stream-pending, close_send,
  close_send-pending, recv_msg, recv_msg-pending,
}

-- The service and the instance of the first meter of a collection.
pub record Instance : Type 0 where
  pub service : Text
  pub service_instance : Text

-- The LRU cache of upstream addresses is of a third-party package, and so is the peer of a stream. The
-- address from the cache only goes into the context of a call of the client.
pub record Upstreams (C : Type 0) : Type 0 where
  pub add : C → Text → Text → C
  pub peer : ℕ → Text

-- `fmt.Sprintf("batch-stream-%s-%s", …)`, without the prefix that all names share
unfoldable pub stream_name : Instance → Text
stream_name i = i.service ++ (b'-' ∷ i.service_instance)

unfoldable pub find_stream : Text → List (Text × ℕ) → Option ℕ
find_stream name [] = none
find_stream name ((n, s) ∷ streams) =
    let rest = find_stream name streams in if text_eq n name then some s else rest

module _ {C : Type 0} (u : Upstreams C) where
  -- savePeerInstanceFromStream
  unfoldable pub save_peer : ℕ → Text → C → C
  save_peer s service_instance cache = elim (u.peer s) [
    | [] ↦ cache
    | b ∷ address ↦ u.add cache service_instance (b ∷ address)
  ]

-- What the batch has changed: the map of streams, the cache and the streams of the client. The map is
-- walked in the order of its entries, newest first, which Go leaves open.
pub record Forwarding (C M : Type 0) : Type 0 where
  pub streams : List (Text × ℕ)
  pub cache : C
  pub net : Net M

module _ {E C M : Type 0} (u : Upstreams C) (meters : E → Option (M × Option Instance)) where
  -- the end of handleMeterCollection
  unfoldable pub send_on_stream : ℕ → M → Forwarding C M → Bool × Forwarding C M
  send_on_stream s m f = let (fine, net') = send_msg s m f.net in (fine, record f { net = net' })

  -- handleMeterCollection; no instance is a collection without meters.
  unfoldable pub handle_meter_collection :
      M → Option Instance → Forwarding C M → Bool × Forwarding C M
  handle_meter_collection m none f = (true, f)
  handle_meter_collection m (some i) f = elim (find_stream (stream_name i) f.streams) [
    | some s ↦ send_on_stream s m f
    | none ↦
        let (stream, net') = open_stream f.net in
        elim stream [
          | none ↦ (false, record f { net = net' })
          | some s ↦ send_on_stream s m (record {
            streams = (stream_name i, s) ∷ f.streams;
            cache = save_peer u s i.service_instance f.cache;
            net = net';
          })
        ]
  ]

  -- the loop of Forward; `meters` is the type assertion to a collection.
  unfoldable pub forward_each : List E → Forwarding C M → Bool × Forwarding C M
  forward_each [] f = (true, f)
  forward_each (e ∷ batch) f = elim (meters e) [
    | none ↦ forward_each batch f
    | some (m, i) ↦
        let (fine, f') = handle_meter_collection m i f in
        let rest = forward_each batch f' in if fine then rest else (false, f')
  ]

  -- closeStream
  unfoldable pub close_stream : ℕ → Net M → Bool × Net M
  close_stream s net =
      let (fine, net') = close_send s net in if fine then recv_msg s net' else (false, net')

  -- The deferred closing; an error is logged.
  unfoldable pub close_all_streams : List (Text × ℕ) → Net M → Net M
  close_all_streams [] net = net
  close_all_streams ((n, s) ∷ streams) net = close_all_streams streams (close_stream s net).1

  unfoldable pub forward : List E → C → Net M → Bool × C × Net M
  forward batch cache net =
      let (fine, f) = forward_each batch (record { streams = []; cache = cache; net = net }) in
      (fine, f.cache, close_all_streams f.streams f.net)

  abbrev pub ids : List (Text × ℕ) → List ℕ
  ids [] = []
  ids ((n, s) ∷ streams) = s ∷ ids streams

  close_stream-pending :
      (s : ℕ) (net : Net M) (ts : List ℕ)
      → pending net ≡ s ∷ ts
      → pending (close_stream s net).1 ≡ ts
  unfolding close_stream
  close_stream-pending s net ts e = elim (close_send-pending s net ts e) [
    | inl (fine, still) ↦ rw fine (recv_msg-pending s (close_send s net).1 ts still)
    | inr (bad, gone) ↦ rw bad gone
  ]

  close_all_streams-pending :
      (streams : List (Text × ℕ)) (net : Net M) (ts : List ℕ)
      → pending net ≡ ids streams ++ ts
      → pending (close_all_streams streams net) ≡ ts
  unfolding close_all_streams
  close_all_streams-pending [] net ts h = h
  close_all_streams-pending ((n, s) ∷ streams) net ts h =
      close_all_streams-pending streams (close_stream s net).1 ts
        (close_stream-pending s net (ids streams ++ ts) h)

  -- The open streams are those in the map, and those from before.
  abbrev pub Tracks : List ℕ → Forwarding C M → Type 0
  Tracks ts f = pending f.net ≡ ids f.streams ++ ts

  send_on_stream-Tracks :
      (ts : List ℕ) (s : ℕ) (m : M) (f : Forwarding C M)
      → Tracks ts f
      → Tracks ts (send_on_stream s m f).1
  unfolding send_on_stream
  send_on_stream-Tracks ts s m f h = send_msg-pending s m f.net ∙ h

  handle_meter_collection-Tracks :
      (ts : List ℕ) (m : M) (i : Option Instance) (f : Forwarding C M)
      → Tracks ts f
      → Tracks ts (handle_meter_collection m i f).1
  unfolding handle_meter_collection
  handle_meter_collection-Tracks ts m none f h = h
  handle_meter_collection-Tracks ts m (some i) f h =
      elim (Option-cases (find_stream (stream_name i) f.streams)) [
        | inr (s, known) ↦ rw (handle_meter_collection, known) (send_on_stream-Tracks ts s m f h)
        | inl new ↦ elim (open_stream-pending f.net) [
          | inl (s, opens, p, q) ↦
              rw (handle_meter_collection, new, opens)
                (send_on_stream-Tracks ts s m
                  (record {
                    streams = (stream_name i, s) ∷ f.streams;
                    cache = save_peer u s i.service_instance f.cache;
                    net = (open_stream f.net).1;
                  })
                  (p ∙ ap (λ l. s ∷ l) h))
          | inr (refuses, p, q) ↦ rw (handle_meter_collection, new, refuses) (p ∙ h)
        ]
      ]

  forward_each-Tracks :
      (ts : List ℕ) (batch : List E) (f : Forwarding C M)
      → Tracks ts f
      → Tracks ts (forward_each batch f).1
  unfolding forward_each
  forward_each-Tracks ts [] f h = h
  forward_each-Tracks ts (e ∷ batch) f h = elim (Option-cases (meters e)) [
    | inl other ↦ rw (forward_each, other) (forward_each-Tracks ts batch f h)
    | inr ((m, i), here) ↦ elim (Bool-cases (handle_meter_collection m i f).0) [
      | inl fine ↦
          rw (forward_each, here, fine)
            (forward_each-Tracks ts batch (handle_meter_collection m i f).1
              (handle_meter_collection-Tracks ts m i f h))
      | inr bad ↦ rw (forward_each, here, bad) (handle_meter_collection-Tracks ts m i f h)
    ]
  ]

  -- Whatever calls fail, and where the batch is left at an error: the streams that are open after
  -- Forward of the meter forwarder are those that were open before it, although a stream is only
  -- half closed by a CloseSend that goes well.
  pub forward-pending :
      (batch : List E) (cache : C) (net : Net M) → pending (forward batch cache net).2 ≡ pending net
  unfolding forward
  forward-pending batch cache net =
      let start : Forwarding C M = record { streams = []; cache = cache; net = net } in
      let (fine, f) = forward_each batch start in
      close_all_streams-pending f.streams f.net (pending net)
        (forward_each-Tracks (pending net) batch start refl)
