-- ===== src/Mmap/Fifo/Enqueue.antt =====
-- enqueue adds its message at the end, or refuses it when the queue is full.
use skywalking_satellite.Base.{
  ℕ, suc, ◌+◌, ◌-◌, ◌/◌, ◌%◌, ◌^◌, ◌≤◌, ◌<◌, ◌≡◌, refl, sym, subst, ap, ◌∙◌, false, List, [], ◌∷◌,
  ◌++◌, length, arith,
}
use skywalking_satellite.Base.Int.{pos, ◌+ℤ◌}
use skywalking_satellite.Mmap.File.{MmapFile, System}
use skywalking_satellite.Mmap.Meta.{get_reading_offset, get_writing_offset, put_writing_offset}
use skywalking_satellite.Mmap.Meta.Laws.{writing, reading, get-put, put_size}
use skywalking_satellite.Mmap.Outcome.{ok, Ensures, holds, Ensures-after}
use skywalking_satellite.Mmap.State.{Queue}
use skywalking_satellite.Mmap.Access.{Fits, Fits-le}
use skywalking_satellite.Mmap.Kept.{Kept, Kept-trans}
use skywalking_satellite.Mmap.Operation.{skip_tail, is_full, enqueue, write_bytes, count_unflushed}
use skywalking_satellite.Mmap.Position.{
  Place, Before, AtMost, AtMost-trans, Before-AtMost, Before-weaken, walk, body, walk-AtMost,
  body-Before, body_inside, walk_inside, skip_tail-AtMost, skip_tail-body, skip_tail_fits,
}
use skywalking_satellite.Mmap.Linear.{end_bound}
use skywalking_satellite.Mmap.Layout.{
  Laid, Laid-append, Laid-Agree, Laid-AtMost, word, word-Agree, word_below_body, Stored, cell,
}
use skywalking_satellite.Mmap.Bytes.{
  Sized, word_written, word_written-Sized, word_written-frame, word-word_written,
}
use skywalking_satellite.Mmap.Write.{Ready, Ready-Kept, Wrote, write_loop-Ensures}
use skywalking_satellite.Mmap.Length.{write_length-Ensures}
use skywalking_satellite.Mmap.Fifo.{Holds, Fit, needed}

Fit-append :
    (max : ℕ) (ms : List (List ℕ)) (m : List ℕ)
    → Fit max ms
    → length m ≤ max
    → Fit max (ms ++ (m ∷ []))
Fit-append max [] m f h = (h, tt)
Fit-append max (n ∷ ms) m f h = (f.0, Fit-append max ms m f.1 h)

module _ (F : MmapFile) (os : System) (fuel size capacity : ℕ) where
  open F use {File}

  -- Laying out one message behind those that are there.
  Laid-extend :
      (files middle result : ℕ → File) (r w : Place) (ms : List (List ℕ)) (m : List ℕ)
      → Sized F size capacity files
      → 8 ≤ size
      → length m < 2 ^ 63
      → Laid F size capacity files r ms w
      → (walk size (length m) (body size w)).0 < r.0 + capacity
      → middle
        ≡ word_written F size capacity files (skip_tail size w).0 (skip_tail size w).1 (length m)
      → Stored F size capacity result (body size w) m
      → ((p : Place)
          → Before p (body size w)
          → (walk size (length m) (body size w)).0 < p.0 + capacity
          → cell F size capacity result p ≡ cell F size capacity middle p)
      → Laid F size capacity result r (ms ++ (m ∷ [])) (walk size (length m) (body size w))
  Laid-extend files middle result r w ms m s hs short laid near f stored frame =
      Laid-append F size capacity result r ms (m ∷ []) w (walk size (length m) (body size w))
        (Laid-Agree F size capacity files result r ms w old laid) (length_there, stored, refl)
    where
      last : ℕ
      last = (walk size (length m) (body size w)).0

      reach : AtMost (skip_tail size w) (walk size (length m) (body size w))
      reach = AtMost-trans (skip_tail-body size w) (walk-AtMost size (length m) (body size w))

      start : AtMost r w
      start = Laid-AtMost F size capacity files r ms w laid

      old :
          (p : Place)
          → AtMost r p
          → Before p w
          → cell F size capacity result p ≡ cell F size capacity files p
      old p at below =
          frame p (Before-AtMost below (Before-weaken (body-Before size w))) (omega (arith, near))
          ∙ ap (λ g. cell F size capacity g p) f
          ∙ word_written-frame F size capacity files (skip_tail size w).0 (skip_tail size w).1
              (length m) p (Before-AtMost below (skip_tail-AtMost size w))
              (omega (arith, near, reach))

      length_there : word F size capacity result (skip_tail size w) ≡ length m
      length_there =
          word-Agree F size capacity middle result (skip_tail size w) (λ p at below.
            frame p (Before-AtMost below (word_below_body F size capacity w))
              (omega (arith, near, start, skip_tail-AtMost size w)))
          ∙ ap (λ g. word F size capacity g (skip_tail size w)) f
          ∙ word-word_written F size capacity files (skip_tail size w).0 (skip_tail size w).1
              (length m) s (skip_tail_fits size w hs) (omega arith)

  room_left :
      (q : Queue File)
      → Ready F size capacity q
      → is_full F q ≡ false
      → (get_writing_offset F q.meta).0 + 1 + q.max_event_size / size
        < (get_reading_offset F q.meta).0 + capacity
  unfolding is_full
  room_left q r h =
      subst
        (λ z.
          (get_writing_offset F q.meta).0 + 1 + q.max_event_size / z
          < (get_reading_offset F q.meta).0 + capacity)
        r.segment
        (subst
          (λ c.
            (get_writing_offset F q.meta).0 + 1 + q.max_event_size / q.segment_size
            < (get_reading_offset F q.meta).0 + c)
          r.ring (ground (arith, h)))

  -- the queue after the last statements of enqueue, from the state `t` that the writes left
  abbrev finish : List ℕ → Place → Queue File → Queue File
  finish m out t =
      let t' : Queue File = record t { meta = put_writing_offset F t.meta out.0 out.1 } in
      let t'' : Queue File = count_unflushed t' in
      record t'' { used_size = t''.used_size +ℤ pos (length m) }

  finish-Holds :
      (q t : Queue File) (ms : List (List ℕ)) (m : List ℕ)
      → Holds F size capacity q ms
      → length m ≤ q.max_event_size
      → (get_reading_offset F q.meta).0 + capacity ≤ 2 ^ 63
      → Kept q t
      → Sized F size capacity t.files
      → (walk size (length m) (body size (get_writing_offset F q.meta))).0
        < (get_reading_offset F q.meta).0 + capacity
      → Laid F size capacity t.files
          (get_reading_offset F q.meta)
          (ms ++ (m ∷ []))
          (walk size (length m) (body size (get_writing_offset F q.meta)))
      → Holds F size capacity
          (finish m (walk size (length m) (body size (get_writing_offset F q.meta))) t)
          (ms ++ (m ∷ []))
        × (get_reading_offset F
              (finish m (walk size (length m) (body size (get_writing_offset F q.meta))) t).meta
            ≡ get_reading_offset F q.meta)
  unfolding count_unflushed
  finish-Holds q t ms m h short int k s near laid = (
    record {
      ready = record {
        segment = k.segment_size ∙ h.ready.segment;
        ring = k.capacity ∙ h.ready.ring;
        unlocked = λ i. k.locker i ∙ h.ready.unlocked i;
        sized = s;
      };
      word_size = h.word_size;
      int_size = h.int_size;
      int_events = subst (λ z. z < 2 ^ 63) (sym k.max_event) h.int_events;
      meta_file = omega (arith, put_size F writing t.meta out.0 out.1, meta_there);
      laid =
          subst
            (λ r.
              Laid F size capacity t.files r (ms ++ (m ∷ []))
                (get_writing_offset F (put_writing_offset F t.meta out.0 out.1)))
            (sym still)
            (subst (Laid F size capacity t.files (get_reading_offset F q.meta) (ms ++ (m ∷ [])))
              (sym moved) laid);
      reading_inside = subst (λ p. p.1 < size) (sym still) h.reading_inside;
      writing_inside = subst (λ p. p.1 < size) (sym moved) out_inside;
      near =
          subst
            (λ p.
              p.0 < (get_reading_offset F (put_writing_offset F t.meta out.0 out.1)).0 + capacity)
            (sym moved) (subst (λ p. out.0 < p.0 + capacity) (sym still) near);
      int_segments = subst (λ p. p.0 < 2 ^ 63) (sym moved) (omega arith);
      sizes =
          subst (λ z. Fit z (ms ++ (m ∷ []))) (sym k.max_event)
            (Fit-append q.max_event_size ms m h.sizes short);
    },
    still,
  )
    where
      out : Place
      out = walk size (length m) (body size (get_writing_offset F q.meta))

      out_inside : out.1 < size
      out_inside =
          walk_inside size (length m) (body size (get_writing_offset F q.meta))
            (body_inside size (get_writing_offset F q.meta) h.word_size)

      meta_there : 80 ≤ F.size t.meta.meta_file
      meta_there = subst (λ x. 80 ≤ F.size x.meta_file) (sym k.meta) h.meta_file

      moved : get_writing_offset F (put_writing_offset F t.meta out.0 out.1) ≡ out
      moved =
          get-put F writing writing t.meta out.0 out.1 meta_there (omega (arith, near, int))
            (omega (arith, out_inside, h.int_size))

      still :
          get_reading_offset F (put_writing_offset F t.meta out.0 out.1)
          ≡ get_reading_offset F q.meta
      still =
          get-put F writing reading t.meta out.0 out.1 meta_there (omega (arith, near, int))
            (omega (arith, out_inside, h.int_size))
          ∙ ap (get_reading_offset F) k.meta

  -- What enqueue has done when it returns: the message stands last, and its size is counted.
  pub record Enqueued (m : List ℕ) (ms : List (List ℕ)) (q t : Queue File) : Type 0 where
    pub holds_more : Holds F size capacity t (ms ++ (m ∷ []))
    pub same_reading : get_reading_offset F t.meta ≡ get_reading_offset F q.meta
    pub counted : t.used_size ≡ q.used_size +ℤ pos (length m)
    pub same_limit : t.max_event_size ≡ q.max_event_size
    pub same_ready : t.ready ≡ q.ready

  -- A queue that holds messages and is not full takes one more of an allowed size: it then holds it
  -- last, its reading offset stays and the size is counted. The call returns without an error when
  -- every file opens and the message's segments fit in memory, whatever the fuel; without that the
  -- statement is about the calls that return. The largest message ends a word below the end of a
  -- segment, and no segment identifier reaches 2 ^ 63.
  pub enqueue-Ensures :
      (Fail : Type 0) (m : List ℕ) (ms : List (List ℕ)) (q : Queue File)
      → Holds F size capacity q ms
      → length m ≤ q.max_event_size
      → q.max_event_size % size + 8 < size
      → (get_reading_offset F q.meta).0 + capacity ≤ 2 ^ 63
      → is_full F q ≡ false
      → Fits F os Fail q (needed size q.max_event_size)
      → Ensures Fail (λ _ t. Enqueued m ms q t) (enqueue F os fuel m q).0 (enqueue F os fuel m q).1
  unfolding enqueue write_bytes count_unflushed
  enqueue-Ensures Fail m ms q h short tail int space room = rw space (
      Ensures-after _ _
        (write_length-Ensures F os fuel size capacity Fail (suc (end.0 - start.0)) (length m) w.0
          w.1 q h.ready
          (Fits-le F os Fail q (needed size q.max_event_size) (suc (suc (end.0 - start.0)))
            (omega (arith, bound, reach)) room))
        λ a t p.
          Ensures-after _ _
            (subst
              (λ (x : Place).
                Ensures Fail (Wrote F os fuel size capacity t m start)
                  (write_bytes F os fuel m x.0 x.1 t).0 (write_bytes F os fuel m x.0 x.1 t).1)
              (sym p.0)
              (write_loop-Ensures F os fuel size capacity Fail (suc (length m)) m start.0 start.1 t
                (ready t p.1 p.2) inside (omega arith) (omega (arith, near, reach, from_reading))
                p.3))
            λ b u v.
              subst (λ (x : Place). Ensures Fail (λ _ t. Enqueued m ms q t) (ok tt) (finish m x u))
                (sym v.cursor)
                (holds (
                  added t u p.1 p.2
                    (subst (λ b. Wrote F os fuel size capacity t m start b u) v.cursor v))))
    where
      w : Place
      w = get_writing_offset F q.meta

      start : Place
      start = body size w

      end : Place
      end = walk size (length m) start

      bound : end.0 ≤ w.0 + 1 + q.max_event_size / size
      bound = end_bound size w (length m) q.max_event_size h.word_size h.writing_inside short tail

      near : end.0 < (get_reading_offset F q.meta).0 + capacity
      near = omega (arith, bound, room_left q h.ready space)

      reach : AtMost w start
      reach = Before-weaken (body-Before size w)

      inside : start.1 < size
      inside = body_inside size w h.word_size

      from_reading : AtMost (get_reading_offset F q.meta) w
      from_reading = Laid-AtMost F size capacity q.files (get_reading_offset F q.meta) ms w h.laid

      ready :
          (t : Queue File)
          → t.files
            ≡ word_written F size capacity q.files
                (skip_tail size w).0
                (skip_tail size w).1
                (length m)
          → Kept q t
          → Ready F size capacity t
      ready t f k = Ready-Kept F os fuel size capacity h.ready k λ i.
          ap (λ g. F.size (g i)) f
          ∙ word_written-Sized F size capacity q.files (skip_tail size w).0 (skip_tail size w).1
              (length m) h.ready.sized i

      added :
          (t u : Queue File)
          → t.files
            ≡ word_written F size capacity q.files
                (skip_tail size w).0
                (skip_tail size w).1
                (length m)
          → Kept q t
          → Wrote F os fuel size capacity t m start end u
          → Enqueued m ms q (finish m end u)
      added t u f k v =
          let (more, still) = finish-Holds q u ms m h short int (Kept-trans k v.kept) v.sized near (
            Laid-extend q.files t.files u.files (get_reading_offset F q.meta) w ms m h.ready.sized
              h.word_size (omega (arith, h.int_events)) h.laid near f v.stored v.frame) in
          record {
            holds_more = more;
            same_reading = still;
            counted = ap (λ z. z +ℤ pos (length m)) (Kept-trans k v.kept).used;
            same_limit = (Kept-trans k v.kept).max_event;
            same_ready = (Kept-trans k v.kept).ready;
          }
