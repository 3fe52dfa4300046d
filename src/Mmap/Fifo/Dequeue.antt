-- ===== src/Mmap/Fifo/Dequeue.antt =====
-- dequeue takes the oldest message and gives the offset behind it, or finds the queue empty.
use skywalking_satellite.Base.{
  ℕ, suc, ◌+◌, ◌-◌, ◌/◌, ◌%◌, ◌^◌, ◌≤◌, ◌<◌, ◌≡◌, refl, sym, subst, ap, ◌∙◌, inl, inr, false,
  Bool-cases, List, [], ◌∷◌, length, arith, ◌==◌, if◌then◌else◌,
}
use skywalking_satellite.Base.Int.{pos, ◌-ℤ◌}
use skywalking_satellite.Mmap.File.{MmapFile, System}
use skywalking_satellite.Mmap.Meta.{
  uint64_to_int, get_reading_offset, get_writing_offset, put_reading_offset,
}
use skywalking_satellite.Mmap.Meta.Laws.{writing, reading, get-put, put_size}
use skywalking_satellite.Mmap.Outcome.{M, modify, ◌>>=◌, ◌>>◌, Ensures, holds, Ensures-after, pure}
use skywalking_satellite.Mmap.State.{Queue}
use skywalking_satellite.Mmap.Access.{Fits, Fits-le}
use skywalking_satellite.Mmap.Kept.{Kept, Kept-trans, Kept-unmarked}
use skywalking_satellite.Mmap.Operation.{is_empty, dequeue, read_bytes, send_mark_read}
use skywalking_satellite.Mmap.Position.{
  Place, AtMost, AtMost-trans, Before-weaken, walk, body, walk-AtMost, body-Before, body_inside,
  walk_inside,
}
use skywalking_satellite.Mmap.Linear.{end_bound}
use skywalking_satellite.Mmap.Layout.{Laid, Laid-AtMost, Laid-Before, Stored}
use skywalking_satellite.Mmap.Write.{Ready-Kept}
use skywalking_satellite.Mmap.Length.{read_length-Ensures}
use skywalking_satellite.Mmap.Read.{read_loop-Ensures}
use skywalking_satellite.Mmap.Fifo.{Holds, Fit, needed}
use skywalking_satellite.Mmap.Fifo.Marks.{uint64_to_int_small, Marked, send_mark_read-Ensures}

module _ (F : MmapFile) (os : System) (fuel size capacity : ℕ) where
  open F use {File}

  not_empty :
      (q : Queue File) (m : List ℕ) (ms : List (List ℕ))
      → Holds F size capacity q (m ∷ ms)
      → is_empty F q ≡ false
  unfolding is_empty
  not_empty q m ms h = ground (
    arith,
    Laid-Before F size capacity q.files (get_reading_offset F q.meta) m ms
        (get_writing_offset F q.meta) h.laid,
  )

  -- What dequeue has done when it returns `out`: the message is gone, its bytes and the offset
  -- behind it are the result, and its size is taken off.
  pub record Dequeued (m : List ℕ) (ms : List (List ℕ)) (q : Queue File) (out : List ℕ × ℕ × ℕ)
      (t : Queue File) : Type 0 where
    pub bytes : out.0 ≡ m
    pub behind : (out.1, out.2) ≡ get_reading_offset F t.meta
    pub holds_rest : Holds F size capacity t ms
    pub same_writing : get_writing_offset F t.meta ≡ get_writing_offset F q.meta
    pub counted : t.used_size ≡ q.used_size -ℤ pos (length m)
    pub same_limit : t.max_event_size ≡ q.max_event_size
    pub same_ready : t.ready ≡ q.ready

  -- the queue after the last statements of dequeue
  taken-Dequeued :
      (q u : Queue File) (m : List ℕ) (ms : List (List ℕ)) (end : Place)
      → Holds F size capacity q (m ∷ ms)
      → end ≡ walk size (length m) (body size (get_reading_offset F q.meta))
      → Marked F os (record q { meta = put_reading_offset F q.meta end.0 end.1 }) u
      → Dequeued m ms q (m, end.0, end.1) (record u { used_size = u.used_size -ℤ pos (length m) })
  taken-Dequeued q u m ms end h cursor marked = record {
    bytes = refl;
    behind = sym moved;
    holds_rest = record {
      ready = record {
        segment = marked.0.segment_size ∙ h.ready.segment;
        ring = marked.0.capacity ∙ h.ready.ring;
        unlocked = λ i. marked.0.locker i ∙ h.ready.unlocked i;
        sized = λ i. ap (λ g. F.size (g i)) marked.1 ∙ h.ready.sized i;
      };
      word_size = h.word_size;
      int_size = h.int_size;
      int_events = subst (λ z. z < 2 ^ 63) (sym marked.0.max_event) h.int_events;
      meta_file = omega (arith, put_size F reading q.meta end.0 end.1, h.meta_file, same_meta_size);
      laid =
          subst
            (λ g.
              Laid F size capacity g (get_reading_offset F u.meta) ms (get_writing_offset F u.meta))
            (sym marked.1)
            (subst (λ (x : Place). Laid F size capacity q.files x ms (get_writing_offset F u.meta))
              (sym (moved ∙ cursor))
              (subst
                (λ (x : Place).
                  Laid F size capacity q.files (walk size (length m) (body size r)) ms x)
                (sym still) h.laid.2));
      reading_inside = subst (λ (p : Place). p.1 < size) (sym moved) end_inside;
      writing_inside = subst (λ (p : Place). p.1 < size) (sym still) h.writing_inside;
      near =
          subst (λ (p : Place). p.0 < (get_reading_offset F u.meta).0 + capacity) (sym still)
            (subst (λ (p : Place). w.0 < p.0 + capacity) (sym moved)
              (omega (arith, h.near, before_end)));
      int_segments = subst (λ (p : Place). p.0 < 2 ^ 63) (sym still) h.int_segments;
      sizes = subst (λ z. Fit z ms) (sym marked.0.max_event) h.sizes.1;
    };
    same_writing = still;
    counted = ap (λ z. z -ℤ pos (length m)) marked.0.used;
    same_limit = marked.0.max_event;
    same_ready = marked.0.ready;
  }
    where
      r : Place
      r = get_reading_offset F q.meta

      w : Place
      w = get_writing_offset F q.meta

      after_end : AtMost end w
      after_end =
          subst (λ e. AtMost e w) (sym cursor)
            (Laid-AtMost F size capacity q.files (walk size (length m) (body size r)) ms w h.laid.2)

      before_end : AtMost r end
      before_end =
          subst (λ e. AtMost r e) (sym cursor)
            (AtMost-trans (Before-weaken (body-Before size r))
              (walk-AtMost size (length m) (body size r)))

      same_meta_size :
          F.size u.meta.meta_file ≡ F.size (put_reading_offset F q.meta end.0 end.1).meta_file
      same_meta_size = ap (λ x. F.size x.meta_file) marked.0.meta

      end_inside : end.1 < size
      end_inside =
          subst (λ (e : Place). e.1 < size) (sym cursor)
            (walk_inside size (length m) (body size r) (body_inside size r h.word_size))

      moved : get_reading_offset F u.meta ≡ end
      moved =
          ap (get_reading_offset F) marked.0.meta
          ∙ get-put F reading reading q.meta end.0 end.1 h.meta_file
              (omega (arith, after_end, h.int_segments)) (omega (arith, end_inside, h.int_size))

      still : get_writing_offset F u.meta ≡ w
      still =
          ap (get_writing_offset F) marked.0.meta
          ∙ get-put F reading writing q.meta end.0 end.1 h.meta_file
              (omega (arith, after_end, h.int_segments)) (omega (arith, end_inside, h.int_size))

  -- the statements of dequeue behind readBytes
  abbrev behind_bytes : Place → List ℕ × ℕ × ℕ → M (Queue File) (List ℕ × ℕ × ℕ)
  behind_bytes pre (bytes, id', offset') = do
    modify (λ t. record t { meta = put_reading_offset F t.meta id' offset' })
    (if id' == pre.0 then pure tt else send_mark_read F os pre.0)
    modify (λ t. record t { used_size = t.used_size -ℤ pos (length bytes) })
    pure (bytes, id', offset')

  -- the statements of dequeue behind readLength
  abbrev behind_length : Place → ℕ × ℕ × ℕ → M (Queue File) (List ℕ × ℕ × ℕ)
  behind_length pre (id, offset, len) = do
    (bytes, id', offset') ← read_bytes F os fuel id offset len
    behind_bytes pre (bytes, id', offset')

  behind_bytes-Ensures :
      (Fail : Type 0) (q u : Queue File) (m : List ℕ) (ms : List (List ℕ))
      → Holds F size capacity q (m ∷ ms)
      → Kept q u
      → u.files ≡ q.files
      → Ensures Fail
          (λ out t. Dequeued m ms q out t)
          (behind_bytes
            (get_reading_offset F q.meta)
            (
              m,
              (walk size (length m) (body size (get_reading_offset F q.meta))).0,
              (walk size (length m) (body size (get_reading_offset F q.meta))).1,
            )
            u).0
          (behind_bytes
            (get_reading_offset F q.meta)
            (
              m,
              (walk size (length m) (body size (get_reading_offset F q.meta))).0,
              (walk size (length m) (body size (get_reading_offset F q.meta))).1,
            )
            u).1
  behind_bytes-Ensures Fail q u m ms h k f = elim (Bool-cases (end.0 == r.0)) [
    | inl e ↦ rw e (holds (taken-Dequeued q (moved u) m ms end h refl (Kept-unmarked both, f)))
    | inr e ↦ rw e (
        Ensures-after _ _
          (send_mark_read-Ensures F os Fail r.0 (moved u) (λ i. k.locker i ∙ h.ready.unlocked i))
          λ _ t p.
            holds
              (taken-Dequeued q t m ms end h refl (Kept-unmarked (Kept-trans both p.0), p.1 ∙ f)))
  ]
    where
      r : Place
      r = get_reading_offset F q.meta

      end : Place
      end = walk size (length m) (body size r)

      moved : Queue File → Queue File
      moved t = record t { meta = put_reading_offset F t.meta end.0 end.1 }

      both : Kept (moved q) (moved u)
      both = record {
        segment_size = k.segment_size;
        max_in_mem = k.max_in_mem;
        capacity = k.capacity;
        ceiling = k.ceiling;
        max_event = k.max_event;
        meta = ap (λ x. put_reading_offset F x end.0 end.1) k.meta;
        unflushed = k.unflushed;
        signals = k.signals;
        mark_read = k.mark_read;
        ready = k.ready;
        locker = k.locker;
        used = k.used;
      }

  -- A queue that holds messages gives the oldest one, byte for byte, with the offset behind it, and
  -- then holds the others; its writing offset stays and the size is taken off. The call returns
  -- without an error when every file opens and the message's segments fit in memory; without that
  -- the statement is about the calls that return. The largest message ends a word below the end of
  -- a segment.
  pub dequeue-Ensures :
      (Fail : Type 0) (m : List ℕ) (ms : List (List ℕ)) (q : Queue File)
      → Holds F size capacity q (m ∷ ms)
      → q.max_event_size % size + 8 < size
      → Fits F os Fail q (needed size q.max_event_size)
      → Ensures Fail
          (λ out t. Dequeued m ms q out t)
          (dequeue F os fuel q).0
          (dequeue F os fuel q).1
  unfolding dequeue read_bytes
  dequeue-Ensures Fail m ms q h tail room = rw (not_empty q m ms h) (
      Ensures-after _ _
        (read_length-Ensures F os fuel size capacity Fail (suc (end.0 - start.0)) r.0 r.1 q h.ready
          (Fits-le F os Fail q (needed size q.max_event_size) (suc (suc (end.0 - start.0)))
            (omega (arith, bound, reach)) room))
        λ a t p.
          subst
            (λ (x : ℕ × ℕ × ℕ).
              Ensures Fail (λ out t. Dequeued m ms q out t) (behind_length r x t).0
                (behind_length r x t).1)
            (sym (
              p.0
              ∙ ap (λ n. (start.0, start.1, n))
                  (ap uint64_to_int h.laid.0
                    ∙ uint64_to_int_small (length m) (omega (arith, h.sizes, h.int_events)))))
            (Ensures-after _ _
              (read_loop-Ensures F os fuel size capacity Fail (suc (length m)) [] m (length m)
                start.0 start.1 t
                (Ready-Kept F os fuel size capacity h.ready p.2
                  (λ i. ap (λ g. F.size (g i)) p.1 ∙ h.ready.sized i))
                (subst (λ g. Stored F size capacity g start m) (sym p.1) h.laid.1) refl
                (body_inside size r h.word_size) (omega arith) p.3)
              λ out u v.
                subst
                  (λ (x : List ℕ × ℕ × ℕ).
                    Ensures Fail (λ out t. Dequeued m ms q out t) (behind_bytes r x u).0
                      (behind_bytes r x u).1)
                  (λ i. (sym v.result i, (sym v.cursor i).0, (sym v.cursor i).1))
                  (behind_bytes-Ensures Fail q u m ms h (Kept-trans p.2 v.kept) (v.files ∙ p.1))))
    where
      r : Place
      r = get_reading_offset F q.meta

      start : Place
      start = body size r

      end : Place
      end = walk size (length m) start

      bound : end.0 ≤ r.0 + 1 + q.max_event_size / size
      bound =
          end_bound size r (length m) q.max_event_size h.word_size h.reading_inside h.sizes.0 tail

      reach : AtMost r start
      reach = Before-weaken (body-Before size r)
