-- ===== src/Sender/Consume.antt =====
-- consume and SyncInvoke of internal/satellite/module/sender/sender.go: the remote events of a
-- batch go to the forwarders of their type, and then the batch is acknowledged.
pub mod Counted
use skywalking_satellite.Base.{
  inl, inr, ==_iff, ℕ, zero, suc, ◌+◌, ◌≡◌, refl, sym, ap, ◌∙◌, Bool, ◌&&◌, Bool-cases, Option,
  none, some, List, [], ◌∷◌, ◌++◌, append_assoc, append-nil, length, update, ◌==◌, if◌then◌else◌,
  arith, inl, ==_iff, inr, ◌*◌, false, true,
}
use skywalking_satellite.Queues.Api.{Offset}
use skywalking_satellite.Sender.Buffer.{
  OutputEventContext, BatchBuffer, Filled, last_offset, Contains,
}

-- plugins/forwarder/api: `forward` answers true for no error, with the world that it leaves.
pub record Forwarder (Event World : Type 0) : Type 0 where
  pub forward_type : ℕ
  pub forward : List Event → World → Bool × World
  pub supported_sync_invoke : Bool

-- plugins/fallbacker/api: `fall_back` answers whether the batch was forwarded after all.
abbrev pub Fallbacker : Type 0 → Type 0 → Type 0
Fallbacker Event World = List Event → (List Event → World → Bool × World) → World → Bool × World

-- The outside world of the sender, and its counters by type.
pub record Sending (World : Type 0) : Type 0 where
  pub world : World
  pub success : ℕ → ℕ
  pub failure : ℕ → ℕ

-- `kind` and `remote` are the fields Type and Remote of SniffData, of the generated goapi.
module _ {Event : Type 0} (kind : Event → ℕ) (remote : Event → Bool) where
  -- `events[e.Type] = append(events[e.Type], e)` for a remote event; a type that is not in the map
  -- has no events.
  unfoldable pub add_event : Event → (ℕ → List Event) → ℕ → List Event
  add_event e events =
      if remote e then update events (kind e) (events (kind e) ++ (e ∷ [])) else events

  unfoldable pub add_context : List (List ℕ × Event) → (ℕ → List Event) → ℕ → List Event
  add_context [] events = events
  add_context ((name, e) ∷ context) events = add_context context (add_event e events)

  -- `for i := 0; i < batch.Len(); i++`: the first argument counts the rounds left. An item that is
  -- nil would be a panic.
  unfoldable pub collect :
      ℕ → ℕ → (ℕ → Option (OutputEventContext Event)) → (ℕ → List Event) → Option (ℕ → List Event)
  collect zero i buf events = some events
  collect (suc n) i buf events = elim (buf i) [
    | none ↦ none
    | some item ↦ collect n (i + 1) buf (add_context item.context events)
  ]

  -- What is asked for: the remote events of one type, in the order of the batch.
  abbrev pub wanted : ℕ → Event → List Event
  wanted t e = if remote e && (kind e == t) then e ∷ [] else []

  abbrev pub of_context : ℕ → List (List ℕ × Event) → List Event
  of_context t [] = []
  of_context t ((name, e) ∷ context) = wanted t e ++ of_context t context

  abbrev pub of_items : ℕ → List (OutputEventContext Event) → List Event
  of_items t [] = []
  of_items t (x ∷ xs) = of_context t x.context ++ of_items t xs

  add_event_lem :
      (e : Event) (events : ℕ → List Event) (t : ℕ) → add_event e events t ≡ events t ++ wanted t e
  unfolding add_event
  add_event_lem e events t = elim (Bool-cases (remote e)) [
    | inl r ↦ elim (Bool-cases (kind e == t)) [
      | inl same ↦ rw (r, same) (ap (λ k. events k ++ (e ∷ [])) ((==_iff (kind e) t).0 same))
      | inr other ↦ rw (r, other) (sym (append-nil (events t)))
    ]
    | inr r ↦ rw r (sym (append-nil (events t)))
  ]

  add_context_lem :
      (context : List (List ℕ × Event)) (events : ℕ → List Event) (t : ℕ)
      → add_context context events t ≡ events t ++ of_context t context
  unfolding add_context
  add_context_lem [] events t = sym (append-nil (events t))
  add_context_lem ((name, e) ∷ context) events t =
      add_context_lem context (add_event e events) t
      ∙ ap (λ z. z ++ of_context t context) (add_event_lem e events t)
      ∙ append_assoc (events t) (wanted t e) (of_context t context)

  -- The items of a buffer are collected without a panic, and every type gets its remote events in
  -- the order of the batch.
  collect_lem :
      (n i : ℕ) (buf : ℕ → Option (OutputEventContext Event)) (events : ℕ → List Event)
      (xs : List (OutputEventContext Event))
      → n ≡ length xs
      → Filled buf i xs
      → (found : ℕ → List Event) × (collect n i buf events ≡ some found)
        × ((t : ℕ) → found t ≡ events t ++ of_items t xs)
  unfolding collect
  collect_lem zero i buf events [] e f = (events, refl, λ t. sym (append-nil (events t)))
  collect_lem zero i buf events (x ∷ xs) e f = absurd (omega (arith, e))
  collect_lem (suc n) i buf events [] e f = absurd (omega (arith, e))
  collect_lem (suc n) i buf events (x ∷ xs) e f =
      let (found, got, same) =
        collect_lem n (i + 1) buf (add_context x.context events) xs (omega (arith, e)) f.1 in
      (
        found,
        rw (f.0, collect) got,
        λ t.
            same t
            ∙ ap (λ z. z ++ of_items t xs) (add_context_lem x.context events t)
            ∙ append_assoc (events t) (of_context t x.context) (of_items t xs),
      )

  module _ {World : Type 0} (fall_back : Fallbacker Event World) where
    -- One forwarder with the events of its type: it counts as sent, or it counts as failed when
    -- the fallback gives up.
    unfoldable pub forward_events :
        Forwarder Event World → List Event → Sending World → Sending World
    forward_events f batch s =
        let (sent, w) = f.forward batch s.world in
        let (recovered, v) = fall_back batch f.forward w in
        if sent
        then record s {
          world = w;
          success = update s.success f.forward_type (s.success f.forward_type + length batch);
        }
        else (if recovered then record s { world = v } else record s {
          world = v;
          failure = update s.failure f.forward_type (s.failure f.forward_type + length batch);
        })

    -- A type that is not in the map is passed over.
    unfoldable pub forward_type_events :
        Forwarder Event World → List Event → Sending World → Sending World
    forward_type_events f [] s = s
    forward_type_events f (e ∷ batch) s = forward_events f (e ∷ batch) s

    unfoldable pub forward_all :
        List (Forwarder Event World) → (ℕ → List Event) → Sending World → Sending World
    forward_all [] events s = s
    forward_all (f ∷ fs) events s =
        forward_all fs events (forward_type_events f (events f.forward_type) s)

    unfoldable pub consume :
        List (Forwarder Event World)
        → (Option Offset → World → World)
        → BatchBuffer Event
        → Sending World
        → Option (Sending World)
    consume forwarders ack batch s =
        let sent =
          elim (collect batch.size 0 batch.buf (λ _. [])) as (λ _. Option (Sending World)) [
            | none ↦ none
            | some events ↦
                let t = forward_all forwarders events s in
                some (record t { world = ack batch.last t.world })
          ] in
        if batch.size == 0 then some s else sent

    -- What the forwarders, one after the other, make of these items. A forwarder without a remote event
    -- of its type is passed over. Another is given all of these in the order of the batch, and they
    -- count as sent; at an error the fallback has them, and they count as failed when it gives up.
    pub data Served (xs : List (OutputEventContext Event))
        : List (Forwarder Event World) → Sending World → Sending World → Type 0 where
      nobody : {s : Sending World} → Served xs [] s s
      idle :
          {f : Forwarder Event World} {fs : List (Forwarder Event World)} {s t : Sending World}
          → of_items f.forward_type xs ≡ []
          → Served xs fs s t
          → Served xs (f ∷ fs) s t
      went :
          {f : Forwarder Event World} {fs : List (Forwarder Event World)} {s t : Sending World}
          (e : Event) (batch : List Event) (w : World)
          → of_items f.forward_type xs ≡ e ∷ batch
          → f.forward (e ∷ batch) s.world ≡ (true, w)
          → Served xs fs
              (record s {
                world = w;
                success =
                    update s.success f.forward_type (s.success f.forward_type + length (e ∷ batch));
              })
              t
          → Served xs (f ∷ fs) s t
      recovered :
          {f : Forwarder Event World} {fs : List (Forwarder Event World)} {s t : Sending World}
          (e : Event) (batch : List Event) (w v : World)
          → of_items f.forward_type xs ≡ e ∷ batch
          → f.forward (e ∷ batch) s.world ≡ (false, w)
          → fall_back (e ∷ batch) f.forward w ≡ (true, v)
          → Served xs fs (record s { world = v }) t
          → Served xs (f ∷ fs) s t
      failed :
          {f : Forwarder Event World} {fs : List (Forwarder Event World)} {s t : Sending World}
          (e : Event) (batch : List Event) (w v : World)
          → of_items f.forward_type xs ≡ e ∷ batch
          → f.forward (e ∷ batch) s.world ≡ (false, w)
          → fall_back (e ∷ batch) f.forward w ≡ (false, v)
          → Served xs fs
              (record s {
                world = v;
                failure =
                    update s.failure f.forward_type (s.failure f.forward_type + length (e ∷ batch));
              })
              t
          → Served xs (f ∷ fs) s t

    forward_type_events-Served :
        (xs : List (OutputEventContext Event)) (f : Forwarder Event World)
        (fs : List (Forwarder Event World)) (batch : List Event) (s t : Sending World)
        → of_items f.forward_type xs ≡ batch
        → Served xs fs (forward_type_events f batch s) t
        → Served xs (f ∷ fs) s t
    unfolding forward_type_events forward_events
    forward_type_events-Served xs f fs [] s t e rest = idle e rest
    forward_type_events-Served xs f fs (x ∷ batch) s t e rest =
        let (w, v) : World × World = (
          (f.forward (x ∷ batch) s.world).1,
          (fall_back (x ∷ batch) f.forward (f.forward (x ∷ batch) s.world).1).1,
        ) in
        elim (Bool-cases (f.forward (x ∷ batch) s.world).0) [
          | inl fine ↦ went x batch w e (ap (λ b. (b, w)) fine) (rw fine at rest)
          | inr bad ↦ elim (Bool-cases (fall_back (x ∷ batch) f.forward w).0) [
            | inl saved ↦
                recovered x batch w v e (ap (λ b. (b, w)) bad) (ap (λ b. (b, v)) saved)
                  (rw (bad, saved) at rest)
            | inr gone ↦
                failed x batch w v e (ap (λ b. (b, w)) bad) (ap (λ b. (b, v)) gone)
                  (rw (bad, gone) at rest)
          ]
        ]

    forward_all-Served :
        (xs : List (OutputEventContext Event)) (events : ℕ → List Event)
        → ((t : ℕ) → events t ≡ of_items t xs)
        → (fs : List (Forwarder Event World)) (s : Sending World)
        → Served xs fs s (forward_all fs events s)
    unfolding forward_all
    forward_all-Served xs events same [] s = nobody
    forward_all-Served xs events same (f ∷ fs) s =
        let next = forward_type_events f (events f.forward_type) s in
        forward_type_events-Served xs f fs (events f.forward_type) s (forward_all fs events next)
          (sym (same f.forward_type)) (forward_all-Served xs events same fs next)

    -- A batch is consumed through the map of its events by type.
    pub record ByType (forwarders : List (Forwarder Event World))
        (ack : Option Offset → World → World) (xs : List (OutputEventContext Event))
        (s : Sending World) (r : Option (Sending World)) : Type 0 where
      pub events : ℕ → List Event
      pub by_type : (t : ℕ) → events t ≡ of_items t xs
      pub acknowledged :
          r
          ≡ some (record (forward_all forwarders events s) {
            world = ack (last_offset none xs) (forward_all forwarders events s).world;
          })

    pub consume-ByType :
        (forwarders : List (Forwarder Event World)) (ack : Option Offset → World → World)
        (batch : BatchBuffer Event) (x : OutputEventContext Event)
        (xs : List (OutputEventContext Event)) (s : Sending World)
        → Contains batch (x ∷ xs)
        → ByType forwarders ack (x ∷ xs) s (consume forwarders ack batch s)
    unfolding consume
    consume-ByType forwarders ack batch x xs s c =
        let (events, got, same) =
          collect_lem batch.size 0 batch.buf (λ _. []) (x ∷ xs) c.count c.filled in
        let some_items : batch.size == 0 ≡ false = ground (arith, c.count) in
        record {
          events = events;
          by_type = same;
          acknowledged =
              rw (some_items, got, consume)
                (ap
                  (λ o. some (record (forward_all forwarders events s) {
                    world = ack o (forward_all forwarders events s).world;
                  }))
                  c.to);
        }

    -- What consuming a batch of these items comes to: the forwarders are served, and then the offset of
    -- the last item is acknowledged.
    pub record Consumed (forwarders : List (Forwarder Event World))
        (ack : Option Offset → World → World) (xs : List (OutputEventContext Event))
        (s : Sending World) (r : Option (Sending World)) : Type 0 where
      pub forwarded : Sending World
      pub served : Served xs forwarders s forwarded
      pub answer : r ≡ some (record forwarded { world = ack (last_offset none xs) forwarded.world })

    -- A batch with items is consumed without a panic. The forwarders have their turn one after the
    -- other: one without a remote event of its type in the batch is passed over; another is given
    -- all these events in the order of the batch, and they count as sent when it answers no error;
    -- at an error the fallback has them with that forwarder, and they count as failed when it gives
    -- up. Then the offset of the last item is acknowledged, whatever became of the events.
    pub consume-Consumed :
        (forwarders : List (Forwarder Event World)) (ack : Option Offset → World → World)
        (batch : BatchBuffer Event) (x : OutputEventContext Event)
        (xs : List (OutputEventContext Event)) (s : Sending World)
        → Contains batch (x ∷ xs)
        → Consumed forwarders ack (x ∷ xs) s (consume forwarders ack batch s)
    consume-Consumed forwarders ack batch x xs s c =
        let done = consume-ByType forwarders ack batch x xs s c in
        record {
          forwarded = forward_all forwarders done.events s;
          served = forward_all-Served (x ∷ xs) done.events done.by_type forwarders s;
          answer = done.acknowledged;
        }
