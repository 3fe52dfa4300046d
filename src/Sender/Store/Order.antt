-- ===== src/Sender/Store/Order.antt =====
-- What comes in to the routine store goes into batches, in order and without a loss.
use skywalking_satellite.Base.{
  ◌<◌, ◌≡◌, refl, sym, subst, ap, ◌∙◌, ◌⊎◌, inl, inr, false, Bool-cases, Option, none, some, List,
  [], ◌∷◌, ◌++◌, append_assoc, append-nil, leb, ◌==◌, if◌then◌else◌, arith,
}
use skywalking_satellite.Queues.Api.{Offset}
use skywalking_satellite.Sender.Buffer.{
  OutputEventContext, BatchBuffer, new_batch_buffer, add, Contains, new_batch_buffer-Contains,
  add-Contains, add_cap,
}
use skywalking_satellite.Sender.Store.{
  connected, disconnect, begun, ticked, closed, received, listened, on_status, on_input,
  send_buffer, Store, put_item, on_tick, ClientStatus, Run, ticked, closed, received, listened,
}

module _ {Event : Type 0} where
  abbrev pub item_with : Option Offset → OutputEventContext Event → List (OutputEventContext Event)
  item_with none x = []
  item_with (some o) x = x ∷ []

  -- the items that have an offset
  abbrev pub with_offset : List (OutputEventContext Event) → List (OutputEventContext Event)
  with_offset [] = []
  with_offset (x ∷ xs) = item_with x.offset x ++ with_offset xs

  abbrev pub concat : List (List (OutputEventContext Event)) → List (OutputEventContext Event)
  concat [] = []
  concat (b ∷ bs) = b ++ concat bs

  -- batch by batch, what the buffers hold
  abbrev pub Batches : List (BatchBuffer Event) → List (List (OutputEventContext Event)) → Type 0
  Batches [] [] = Unit {0}
  Batches [] (_ ∷ _) = ⊥
  Batches (_ ∷ _) [] = ⊥
  Batches (b ∷ bs) (x ∷ xs) = Contains b x × Batches bs xs

  -- The batches and the buffer hold `all`, in order, and the buffer has room.
  pub record Keeps (s : Store Event) (all : List (OutputEventContext Event)) : Type 0 where
    pub batches : List (List (OutputEventContext Event))
    pub current : List (OutputEventContext Event)
    pub in_order : all ≡ concat batches ++ current
    pub sent : Batches s.flushed batches
    pub buffered : Contains s.buffer current
    pub room : s.buffer.size < s.max_buffer_size
    pub sized : s.buffer.cap ≡ s.max_buffer_size

  concat-append :
      (bs : List (List (OutputEventContext Event))) (x : List (OutputEventContext Event))
      → concat (bs ++ (x ∷ [])) ≡ concat bs ++ x
  concat-append [] x = append-nil x
  concat-append (b ∷ bs) x =
      ap (λ z. b ++ z) (concat-append bs x) ∙ sym (append_assoc b (concat bs) x)

  Batches-append :
      (bs : List (BatchBuffer Event)) (xs : List (List (OutputEventContext Event)))
      (b : BatchBuffer Event) (x : List (OutputEventContext Event))
      → Batches bs xs
      → Contains b x
      → Batches (bs ++ (b ∷ [])) (xs ++ (x ∷ []))
  Batches-append [] [] b x h c = (c, tt)
  Batches-append [] (_ ∷ _) b x h c = absurd h
  Batches-append (_ ∷ _) [] b x h c = absurd h
  Batches-append (d ∷ bs) (y ∷ xs) b x h c = (h.0, Batches-append bs xs b x h.1 c)

  with_offset-append :
      (xs : List (OutputEventContext Event)) (e : OutputEventContext Event)
      → with_offset (xs ++ (e ∷ [])) ≡ with_offset xs ++ item_with e.offset e
  with_offset-append [] e = append-nil (item_with e.offset e)
  with_offset-append (x ∷ xs) e =
      ap (λ z. item_with x.offset x ++ z) (with_offset-append xs e)
      ∙ sym (append_assoc (item_with x.offset x) (with_offset xs) (item_with e.offset e))

  -- Sending a buffer moves what it holds behind the batches.
  send_buffer-Keeps :
      (s : Store Event) (all : List (OutputEventContext Event))
      (batches : List (List (OutputEventContext Event))) (current : List (OutputEventContext Event))
      → 0 < s.max_buffer_size
      → all ≡ concat batches ++ current
      → Batches s.flushed batches
      → Contains s.buffer current
      → Keeps (send_buffer s) all
  unfolding send_buffer new_batch_buffer
  send_buffer-Keeps s all batches current some_room e sent c = record {
    batches = batches ++ (current ∷ []);
    current = [];
    in_order =
        e
        ∙ sym (concat-append batches current)
        ∙ sym (append-nil (concat (batches ++ (current ∷ []))));
    sent = Batches-append s.flushed batches s.buffer current sent c;
    buffered = new_batch_buffer-Contains s.max_buffer_size;
    room = some_room;
    sized = refl;
  }

  put_item-Keeps :
      (e : OutputEventContext Event) (s : Store Event) (all : List (OutputEventContext Event))
      → Keeps s all
      → Keeps (put_item e s) (all ++ item_with e.offset e)
  unfolding put_item
  put_item-Keeps e s all k = elim (add-Contains e s.buffer k.current k.buffered) [
    | inl (free, (offset, some_offset), c) ↦
        elim (Bool-cases ((add e s.buffer).size == s.max_buffer_size)) [
          | inl full ↦ rw full (
              send_buffer-Keeps (record s { buffer = add e s.buffer }) (all ++ item_with e.offset e)
                k.batches (k.current ++ (e ∷ [])) (omega (arith, k.room)) (more offset some_offset)
                k.sent c)
          | inr more_room ↦ rw more_room (record {
            batches = k.batches;
            current = k.current ++ (e ∷ []);
            in_order = more offset some_offset;
            sent = k.sent;
            buffered = c;
            room = ground (arith, more_room, c.inside, add_cap e s.buffer, k.sized);
            sized = add_cap e s.buffer ∙ k.sized;
          })
        ]
    | inr (why, same) ↦ unchanged why same
  ]
    where
      more :
          (offset : Offset)
          → e.offset ≡ some offset
          → all ++ item_with e.offset e ≡ concat k.batches ++ (k.current ++ (e ∷ []))
      more offset some_offset =
          ap (λ o. all ++ item_with o e) some_offset
          ∙ ap (λ z. z ++ (e ∷ [])) k.in_order
          ∙ append_assoc (concat k.batches) k.current (e ∷ [])

      after_add : BatchBuffer Event → Store Event
      after_add b =
          if b.size == s.max_buffer_size
          then send_buffer (record s { buffer = b })
          else record s { buffer = b }

      unchanged :
          (s.buffer.size ≡ s.buffer.cap) ⊎ (e.offset ≡ none)
          → add e s.buffer ≡ s.buffer
          → Keeps (put_item e s) (all ++ item_with e.offset e)
      unchanged (inl full) same = absurd (omega (arith, full, k.room, k.sized))
      unchanged (inr nil) same =
          let not_full : s.buffer.size == s.max_buffer_size ≡ false = ground (arith, k.room) in
          let still : put_item e s ≡ s =
            ap after_add same ∙ ap (λ t. if t then send_buffer s else s) not_full in
          subst (λ z. Keeps z (all ++ item_with e.offset e)) (sym still)
            (subst (Keeps s) (sym (ap (λ o. all ++ item_with o e) nil ∙ append-nil all)) k)

  on_tick-Keeps :
      (s : Store Event) (all : List (OutputEventContext Event))
      → Keeps s all
      → Keeps (on_tick s) all
  unfolding on_tick
  on_tick-Keeps s all k = elim (Bool-cases (leb s.min_flush_events s.buffer.size)) [
    | inl due ↦ rw due (
        send_buffer-Keeps s all k.batches k.current (omega (arith, k.room)) k.in_order k.sent
          k.buffered)
    | inr early ↦ rw early k
  ]

  on_status-Keeps :
      (c : ClientStatus) (s : Store Event) (all : List (OutputEventContext Event))
      → Keeps s all
      → Keeps (on_status c s) all
  unfolding on_status
  on_status-Keeps connected s all k = record {
    batches = k.batches;
    current = k.current;
    in_order = k.in_order;
    sent = k.sent;
    buffered = k.buffered;
    room = k.room;
    sized = k.sized;
  }
  on_status-Keeps disconnect s all k = record {
    batches = k.batches;
    current = k.current;
    in_order = k.in_order;
    sent = k.sent;
    buffered = k.buffered;
    room = k.room;
    sized = k.sized;
  }

  -- Whatever the order of ticks, items and status changes: the items with an offset that came in
  -- are those of the batches that were sent, followed by those in the buffer, in the same order,
  -- and every batch has the offsets of its ends; no buffer is ever full when an item comes, so none
  -- is lost. It starts with a new buffer of a positive size.
  pub Run-Keeps :
      (start s : Store Event) (xs : List (OutputEventContext Event))
      → start.buffer ≡ new_batch_buffer start.max_buffer_size
      → start.flushed ≡ []
      → 0 < start.max_buffer_size
      → Run start xs s
      → Keeps s (with_offset xs)
  unfolding on_input new_batch_buffer
  Run-Keeps start _ _ fresh none_sent some_room begun = record {
    batches = [];
    current = [];
    in_order = refl;
    sent = subst (λ z. Batches z []) (sym none_sent) tt;
    buffered =
        subst (λ b. Contains b []) (sym fresh) (new_batch_buffer-Contains start.max_buffer_size);
    room = subst (λ b. b.size < start.max_buffer_size) (sym fresh) some_room;
    sized = ap (λ b. b.cap) fresh;
  }
  Run-Keeps start _ xs fresh none_sent some_room (ticked {s = s} r live) =
      on_tick-Keeps s (with_offset xs) (Run-Keeps start s xs fresh none_sent some_room r)
  Run-Keeps start _ xs fresh none_sent some_room (closed {s = s} r live) =
      Run-Keeps start s xs fresh none_sent some_room r
  Run-Keeps start _ _ fresh none_sent some_room (received {xs = xs} {s = s} e r live) =
      subst (Keeps (put_item e s)) (sym (with_offset-append xs e))
        (put_item-Keeps e s (with_offset xs) (Run-Keeps start s xs fresh none_sent some_room r))
  Run-Keeps start _ xs fresh none_sent some_room (listened {s = s} status r) =
      on_status-Keeps status s (with_offset xs) (Run-Keeps start s xs fresh none_sent some_room r)
