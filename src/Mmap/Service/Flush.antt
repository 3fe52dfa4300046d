-- ===== src/Mmap/Service/Flush.antt =====
-- doFlush moves the watermark to the writing offset, and Ack the committed offset to what was
-- handed out; neither touches the messages.
use skywalking_satellite.Base.{
  ℕ, zero, suc, ◌+◌, ◌^◌, ◌≤◌, ◌<◌, ◌≡◌, refl, sym, subst, ap, ◌∙◌, true, false, Option, List,
  update, update_self, arith, not, if◌then◌else◌,
}
use skywalking_satellite.Mmap.File.{MmapFile}
use skywalking_satellite.Mmap.Meta.{
  get_writing_offset, get_version, get_capacity, put_watermark_offset, put_committed_offset,
}
use skywalking_satellite.Mmap.Meta.Laws.{
  Slot, same, same_refl, get, put, reading, writing, watermark, committed, get-put, put_size,
  put_keeps,
}
use skywalking_satellite.Mmap.Outcome.{Ensures, holds, Ensures-after, Ensures-weaken}
use skywalking_satellite.Mmap.State.{Queue}
use skywalking_satellite.Mmap.Kept.{Kept, Kept-refl, Kept-trans}
use skywalking_satellite.Mmap.Position.{Place}
use skywalking_satellite.Mmap.Fifo.{Holds}
use skywalking_satellite.Mmap.Fifo.Alike.{Alike, Holds-Alike}
use skywalking_satellite.Mmap.Offset.{encode_offset, decode_offset}
use skywalking_satellite.Mmap.Offset.RoundTrip.{decode_offset-encode_offset}
use skywalking_satellite.Mmap.Service.{flush_segment, flush_segments, do_flush, decoded, ack}

module _ (F : MmapFile) (size capacity : ℕ) where
  open F use {File}

  -- A flush of the segments leaves everything but the locks, and those are as before.
  flush_segments-Ensures :
      (Fail : Type 0) (n i : ℕ) (q : Queue File)
      → ((j : ℕ) → q.locker j ≡ false)
      → Ensures Fail
          (λ _ t. Kept q t × (t.files ≡ q.files))
          (flush_segments F n i q).0
          (flush_segments F n i q).1
  unfolding flush_segments flush_segment
  flush_segments-Ensures Fail zero i q free = holds (Kept-refl q, refl)
  flush_segments-Ensures Fail (suc n) i q free =
      rw (free i, update_self q.locker i true)
        (Ensures-weaken
          (flush_segments-Ensures Fail n (i + 1) (after_one q i)
            (λ j. same_locks q i j free ∙ free j))
          λ _ t p. (Kept-trans (kept q i free) p.0, p.1))
    where
      after_one : Queue File → ℕ → Queue File
      after_one q i = record q { locker = update (update q.locker i true) i false }

      same_locks :
          (q : Queue File) (i j : ℕ)
          → ((j : ℕ) → q.locker j ≡ false)
          → update (update q.locker i true) i false j ≡ q.locker j
      same_locks q i j free = ground (arith, free i)

      kept : (q : Queue File) (i : ℕ) → ((j : ℕ) → q.locker j ≡ false) → Kept q (after_one q i)
      kept q i free = record {
        segment_size = refl;
        max_in_mem = refl;
        capacity = refl;
        ceiling = refl;
        max_event = refl;
        meta = refl;
        unflushed = refl;
        signals = refl;
        mark_read = refl;
        ready = refl;
        locker = λ j. same_locks q i j free;
        used = refl;
      }

  -- What has changed when an offset `slot`, neither the reading nor the writing one, was put.
  pub record Recorded (slot : Slot) (place : Place) (q t : Queue File) : Type 0 where
    pub alike : Alike F q t
    pub recorded : get F slot t.meta ≡ place
    pub others : (s : Slot) → same slot s ≡ false → get F s t.meta ≡ get F s q.meta
    pub version : get_version F t.meta ≡ get_version F q.meta
    pub bound : get_capacity F t.meta ≡ get_capacity F q.meta
    pub used : t.used_size ≡ q.used_size

  put-Recorded :
      (slot : Slot) (id offset : ℕ) (q t : Queue File) (ms : List (List ℕ))
      → same slot reading ≡ false
      → same slot writing ≡ false
      → id < 2 ^ 63
      → offset < 2 ^ 63
      → Holds F size capacity q ms
      → Kept q t
      → t.files ≡ q.files
      → Recorded slot (id, offset) q (record t { meta = put F slot t.meta id offset })
  put-Recorded slot id offset q t ms nr nw hi ho h k f = record {
    alike = record {
      segment_size = k.segment_size;
      capacity = k.capacity;
      max_event = k.max_event;
      locker = k.locker;
      files = f;
      meta_size = put_size F slot t.meta id offset ∙ ap (λ m. F.size m.meta_file) k.meta;
      reading = other reading nr;
      writing = other writing nw;
    };
    recorded =
        get-put F slot slot t.meta id offset there hi ho
        ∙ ap (λ b. if b then (id, offset) else get F slot t.meta) (same_refl slot);
    others = other;
    version = (put_keeps F slot t.meta id offset).0 ∙ ap (get_version F) k.meta;
    bound = (put_keeps F slot t.meta id offset).1 ∙ ap (get_capacity F) k.meta;
    used = k.used;
  }
    where
      there : 80 ≤ F.size t.meta.meta_file
      there = subst (λ m. 80 ≤ F.size m.meta_file) (sym k.meta) h.meta_file

      other :
          (s : Slot) → same slot s ≡ false → get F s (put F slot t.meta id offset) ≡ get F s q.meta
      other s e =
          get-put F slot s t.meta id offset there hi ho
          ∙ ap (λ b. if b then (id, offset) else get F s t.meta) e
          ∙ ap (get F s) k.meta

  -- A flush of a sound queue returns, moves the watermark to the writing offset, and keeps the
  -- messages, the other offsets, the version, the capacity and the used size.
  pub do_flush-Ensures :
      (Fail : Type 0) (q : Queue File) (ms : List (List ℕ))
      → Holds F size capacity q ms
      → Ensures Fail
          (λ _ t. Recorded watermark (get_writing_offset F q.meta) q t × Holds F size capacity t ms)
          (do_flush F q).0
          (do_flush F q).1
  unfolding do_flush
  do_flush-Ensures Fail q ms h =
      Ensures-after _ _ (flush_segments-Ensures Fail q.queue_capacity_segments 0 q h.ready.unlocked)
        λ _ t p.
          holds (flushed t p.0 p.1, Holds-Alike F size capacity q _ ms (flushed t p.0 p.1).alike h)
    where
      flushed :
          (t : Queue File)
          → Kept q t
          → t.files ≡ q.files
          → Recorded watermark (get_writing_offset F q.meta) q (record t {
            meta =
                put_watermark_offset F t.meta
                  (get_writing_offset F t.meta).0
                  (get_writing_offset F t.meta).1;
          })
      flushed t k f =
          subst
            (λ (w : Place).
              Recorded watermark (get_writing_offset F q.meta) q
                (record t { meta = put_watermark_offset F t.meta w.0 w.1 }))
            (ap (get_writing_offset F) (sym k.meta))
            (put-Recorded watermark (get_writing_offset F q.meta).0 (get_writing_offset F q.meta).1
              q t ms refl refl h.int_segments (omega (arith, h.writing_inside, h.int_size)) h k f)

  -- An acknowledgement of an encoded offset commits it and keeps the messages.
  pub ack-Recorded :
      (id offset : ℕ) (q : Queue File) (ms : List (List ℕ))
      → id < 2 ^ 63
      → offset < 2 ^ 63
      → q.ready ≡ true
      → Holds F size capacity q ms
      → Recorded committed (id, offset) q (ack F (encode_offset id offset) q)
        × Holds F size capacity (ack F (encode_offset id offset) q) ms
  unfolding ack
  ack-Recorded id offset q ms hi ho live h =
      subst (λ t. Recorded committed (id, offset) q t × Holds F size capacity t ms) (sym acked)
        (recorded, Holds-Alike F size capacity q committed_there ms recorded.alike h)
    where
      committed_there : Queue File
      committed_there = record q { meta = put_committed_offset F q.meta id offset }

      put_decoded : Option (ℕ × ℕ) → Queue File
      put_decoded o = record q { meta = put_committed_offset F q.meta (decoded o).0 (decoded o).1 }

      acked : ack F (encode_offset id offset) q ≡ committed_there
      acked =
          ap (λ b. if not b then q else put_decoded (decode_offset (encode_offset id offset))) live
          ∙ ap put_decoded (decode_offset-encode_offset id offset hi ho)

      recorded : Recorded committed (id, offset) q committed_there
      recorded = put-Recorded committed id offset q q ms refl refl hi ho h (Kept-refl q) refl
