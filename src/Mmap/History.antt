-- ===== src/Mmap/History.antt =====
-- Any interleaving of the producer, the consumer, the swapper, the flush routine and
-- acknowledgements, each call run to its end, is that of one first-in-first-out queue.
use skywalking_satellite.Base.{
  ℕ, ◌+◌, ◌%◌, ◌^◌, ◌≤◌, ◌<◌, ◌≡◌, refl, sym, subst, ap, ◌∙◌, inl, inr, Bool, true, false,
  Bool-cases, List, [], ◌∷◌, ◌++◌, length, append_assoc, arith,
}
use skywalking_satellite.Mmap.File.{MmapFile, System}
use skywalking_satellite.Mmap.Meta.{get_reading_offset, get_writing_offset}
use skywalking_satellite.Mmap.Outcome.{Outcome, ok, err, spin, Ensures, Ensures-ok}
use skywalking_satellite.Mmap.State.{Queue}
use skywalking_satellite.Mmap.Segments.{do_swap, on_mark_read}
use skywalking_satellite.Mmap.Quiet.{do_swap-Quiet}
use skywalking_satellite.Mmap.Operation.{is_full, is_empty, enqueue, dequeue}
use skywalking_satellite.Mmap.Offset.{encode_offset}
use skywalking_satellite.Mmap.Fifo.{Holds}
use skywalking_satellite.Mmap.Fifo.Alike.{Alike, Alike-Kept, Holds-Alike}
use skywalking_satellite.Mmap.Fifo.Enqueue.{Enqueued, enqueue-Ensures}
use skywalking_satellite.Mmap.Fifo.Dequeue.{Dequeued, dequeue-Ensures}
use skywalking_satellite.Mmap.Fifo.Marks.{on_mark_read-Ensures}
use skywalking_satellite.Mmap.Service.{do_flush, ack}
use skywalking_satellite.Mmap.Service.Flush.{do_flush-Ensures, ack-Recorded}

module _ (F : MmapFile) (size capacity : ℕ) where
  open F use {File}

  -- What was put in and what was taken out, and the queue that is left. The operating system may
  -- answer differently to every call.
  pub data Run (start : Queue File) : List (List ℕ) → List (List ℕ) → Queue File → Type 0 where
    begun : Run start [] [] start
    enqueued :
        {ins outs : List (List ℕ)} {q t : Queue File} (os : System) (fuel : ℕ) (m : List ℕ)
        → Run start ins outs q
        → length m ≤ q.max_event_size
        → (get_reading_offset F q.meta).0 + capacity ≤ 2 ^ 63
        → enqueue F os fuel m q ≡ (ok tt, t)
        → Run start (ins ++ (m ∷ [])) outs t
    dequeued :
        {ins outs : List (List ℕ)} {q t : Queue File} (os : System) (fuel : ℕ)
        (out : List ℕ × ℕ × ℕ)
        → Run start ins outs q
        → dequeue F os fuel q ≡ (ok out, t)
        → Run start ins (outs ++ (out.0 ∷ [])) t
    swapped :
        {ins outs : List (List ℕ)} {q : Queue File} (os : System) (fuel : ℕ)
        → Run start ins outs q
        → Run start ins outs (do_swap F os fuel q).1
    unmapped :
        {ins outs : List (List ℕ)} {q t : Queue File} (os : System) (id : ℕ)
        → Run start ins outs q
        → on_mark_read F os id q ≡ (ok tt, t)
        → Run start ins outs t
    flushed :
        {ins outs : List (List ℕ)} {q t : Queue File}
        → Run start ins outs q
        → do_flush F q ≡ (ok tt, t)
        → Run start ins outs t
    acknowledged :
        {ins outs : List (List ℕ)} {q : Queue File} (id offset : ℕ)
        → Run start ins outs q
        → id < 2 ^ 63
        → offset < 2 ^ 63
        → q.ready ≡ true
        → Run start ins outs (ack F (encode_offset id offset) q)

  -- what is left of what was put in
  pub record Fifo (max : ℕ) (ins outs : List (List ℕ)) (q : Queue File) : Type 0 where
    pub held : List (List ℕ)
    pub in_order : ins ≡ outs ++ held
    pub holds_held : Holds F size capacity q held
    pub limit : q.max_event_size ≡ max

  given :
      {A : Type 0} {P : A → Queue File → Type 0} {o : Outcome A × Queue File} (a : A)
      (t : Queue File)
      → Ensures (Unit {0}) P o.0 o.1
      → o ≡ (ok a, t)
      → P a t
  given {P = P} a t h e = Ensures-ok a (subst (λ x. Ensures (Unit {0}) P x.0 x.1) e h)

  abbrev succeeds : {A : Type 0} → Outcome A × Queue File → Bool
  succeeds (ok a, _) = true
  succeeds (err e, _) = false
  succeeds (spin, _) = false

  not_full :
      (os : System) (fuel : ℕ) (m : List ℕ) (q t : Queue File)
      → enqueue F os fuel m q ≡ (ok tt, t)
      → is_full F q ≡ false
  unfolding enqueue
  not_full os fuel m q t e = elim (Bool-cases (is_full F q)) [
    | inr f ↦ f
    | inl f ↦
        let fails : succeeds (enqueue F os fuel m q) ≡ false = rw f refl in
        absurd (cc (fails, ap succeeds e))
  ]

  nothing_left :
      (q : Queue File)
      → get_reading_offset F q.meta ≡ get_writing_offset F q.meta
      → is_empty F q ≡ true
  unfolding is_empty
  nothing_left q e = ground (arith, e)

  some_held :
      (os : System) (fuel : ℕ) (out : List ℕ × ℕ × ℕ) (q t : Queue File)
      → Holds F size capacity q []
      → dequeue F os fuel q ≡ (ok out, t)
      → ⊥
  unfolding dequeue
  some_held os fuel out q t h e =
      let nothing : is_empty F q ≡ true = nothing_left q h.laid in
      let fails : succeeds (dequeue F os fuel q) ≡ false = rw nothing refl in
      absurd (cc (fails, ap succeeds e))

  Fifo-Alike :
      (max : ℕ) (ins outs : List (List ℕ)) (q t : Queue File)
      → Alike F q t
      → Fifo max ins outs q
      → Fifo max ins outs t
  Fifo-Alike max ins outs q t a f = record {
    held = f.held;
    in_order = f.in_order;
    holds_held = Holds-Alike F size capacity q t f.held a f.holds_held;
    limit = a.max_event ∙ f.limit;
  }

  Fifo-Enqueued :
      (os : System) (fuel max : ℕ) (ins outs : List (List ℕ)) (q t : Queue File) (m : List ℕ)
      (f : Fifo max ins outs q)
      → Enqueued F os fuel size capacity m f.held q t
      → Fifo max (ins ++ (m ∷ [])) outs t
  Fifo-Enqueued os fuel max ins outs q t m f e = record {
    held = f.held ++ (m ∷ []);
    in_order = ap (λ l. l ++ (m ∷ [])) f.in_order ∙ append_assoc outs f.held (m ∷ []);
    holds_held = e.holds_more;
    limit = e.same_limit ∙ f.limit;
  }

  Fifo-Dequeued :
      (os : System) (fuel max : ℕ) (ins outs : List (List ℕ)) (q t : Queue File)
      (out : List ℕ × ℕ × ℕ) (f : Fifo max ins outs q)
      → max % size + 8 < size
      → dequeue F os fuel q ≡ (ok out, t)
      → (held : List (List ℕ)) → f.held ≡ held
      → Fifo max ins (outs ++ (out.0 ∷ [])) t
  Fifo-Dequeued os fuel max ins outs q t out f tail e [] none =
      absurd (some_held os fuel out q t (subst (Holds F size capacity q) none f.holds_held) e)
  Fifo-Dequeued os fuel max ins outs q t out f tail e (m ∷ ms) some =
      let d : Dequeued F os fuel size capacity m ms q out t =
        given out t
          (dequeue-Ensures F os fuel size capacity (Unit {0}) m ms q
            (subst (Holds F size capacity q) some f.holds_held)
            (subst (λ z. z % size + 8 < size) (sym f.limit) tail) (inl tt))
          e in
      record {
        held = ms;
        in_order =
            f.in_order
            ∙ ap (λ l. outs ++ l) (some ∙ ap (λ x. x ∷ ms) (sym d.bytes))
            ∙ sym (append_assoc outs (out.0 ∷ []) ms);
        holds_held = d.holds_rest;
        limit = d.same_limit ∙ f.limit;
      }

  -- Whatever the interleaving of enqueues, dequeues, swaps, unmappings, flushes and
  -- acknowledgements that return, and whatever the operating system answers to each: the messages
  -- that were put in are those that were taken out followed by those that the queue still holds, in
  -- the same order. The queue starts empty and sound, and the largest message ends a word below the
  -- end of a segment.
  pub Run-Fifo :
      (start q : Queue File) (ins outs : List (List ℕ))
      → Holds F size capacity start []
      → start.max_event_size % size + 8 < size
      → Run start ins outs q
      → Fifo start.max_event_size ins outs q
  Run-Fifo start q _ _ h tail begun = record {
    held = [];
    in_order = refl;
    holds_held = h;
    limit = refl;
  }
  Run-Fifo start t _ _ h tail (enqueued {ins = ins} {outs = outs} {q = q} os fuel m r short int e) =
      let f = Run-Fifo start q ins outs h tail r in
      Fifo-Enqueued os fuel start.max_event_size ins outs q t m f (
        given tt t
          (enqueue-Ensures F os fuel size capacity (Unit {0}) m f.held q f.holds_held short
            (subst (λ z. z % size + 8 < size) (sym f.limit) tail) int (not_full os fuel m q t e)
            (inl tt))
          e)
  Run-Fifo start t _ _ h tail (dequeued {ins = ins} {outs = outs} {q = q} os fuel out r e) =
      let f = Run-Fifo start q ins outs h tail r in
      Fifo-Dequeued os fuel start.max_event_size ins outs q t out f tail e f.held refl
  Run-Fifo start t ins outs h tail (swapped {q = q} os fuel r) =
      let quiet = do_swap-Quiet F os fuel q in
      Fifo-Alike start.max_event_size ins outs q t (Alike-Kept F quiet.0 quiet.1)
        (Run-Fifo start q ins outs h tail r)
  Run-Fifo start t ins outs h tail (unmapped {q = q} os id r e) =
      let f = Run-Fifo start q ins outs h tail r in
      let kept =
        given tt t (on_mark_read-Ensures F os (Unit {0}) id q f.holds_held.ready.unlocked) e in
      Fifo-Alike start.max_event_size ins outs q t (Alike-Kept F kept.0 kept.1) f
  Run-Fifo start t ins outs h tail (flushed {q = q} r e) =
      let f = Run-Fifo start q ins outs h tail r in
      let done = given tt t (do_flush-Ensures F size capacity (Unit {0}) q f.held f.holds_held) e in
      Fifo-Alike start.max_event_size ins outs q t done.0.alike f
  Run-Fifo start t ins outs h tail (acknowledged {q = q} id offset r hi ho live) =
      let f = Run-Fifo start q ins outs h tail r in
      let done = ack-Recorded F size capacity id offset q f.held hi ho live f.holds_held in
      Fifo-Alike start.max_event_size ins outs q t done.0.alike f
