-- ===== src/Mmap/Service.antt =====
-- plugins/queue/mmap/queue.go: what the queue offers to the partitions, and its start, flush and
-- close.
pub mod Flush
pub mod Start
pub mod Restart
pub mod Events
mod Tests
use skywalking_satellite.Base.{
  ℕ, zero, suc, ◌+◌, ◌-◌, ◌*◌, ◌/◌, ◌%◌, ◌≡◌, Bool, true, false, not, Option, none, some, List, [],
  ◌∷◌, length, ltb, ◌==◌, if◌then◌else◌,
}
use skywalking_satellite.Base.Int.{ℤ}
use skywalking_satellite.Mmap.File.{MmapFile, System}
use skywalking_satellite.Mmap.Meta
use skywalking_satellite.Mmap.Meta.{
  Metadata, MetaResult, new_metadata, get_committed_offset, get_watermark_offset,
  get_writing_offset, put_committed_offset, put_reading_offset, put_watermark_offset,
  put_writing_offset,
}
use skywalking_satellite.Mmap.Outcome.{
  M, Outcome, ok, err, pure, modify, after, ◌>>=◌, ◌>>◌, closed, too_large, cannot_marshal,
  cannot_unmarshal, cannot_create_metadata,
}
use skywalking_satellite.Mmap.State.{Queue, lock_by_index, unlock_by_index}
use skywalking_satellite.Mmap.Segments.{get_segment}
use skywalking_satellite.Mmap.Operation.{enqueue, dequeue}
use skywalking_satellite.Mmap.Offset.{encode_offset, decode_offset}

-- google.golang.org/protobuf: what was marshalled is unmarshalled to the same event.
pub record Codec : Type 1 where
  pub Event : Type 0
  pub marshal : Event → Option (List ℕ)
  pub unmarshal : List ℕ → Option Event
  pub round_trip : (e : Event) (bytes : List ℕ) → marshal e ≡ some bytes → unmarshal bytes ≡ some e

-- The constant of the source is 128K.
abbrev pub data4_kb : ℕ
data4_kb = 131072

abbrev pub minimum_segments : ℕ
minimum_segments = 4

-- A segment is a multiple of the page, or 128K if it is less than a page.
unfoldable pub adjust_segment_size : ℕ → ℕ → ℕ
adjust_segment_size page size =
    let rounded = if size % page == 0 then size else size - size % page in
    if rounded / page == 0 then data4_kb else rounded

unfoldable pub adjust_max_in_mem : ℕ → ℕ
adjust_max_in_mem n = if ltb n minimum_segments then minimum_segments else n

abbrev decoded : Option (ℕ × ℕ) → ℕ × ℕ
decoded none = (0, 0)
decoded (some p) = p

module _ (F : MmapFile) where
  open F use {File}

  -- The segment's Flush writes bytes that are in the mapping already; its error is logged.
  unfoldable pub flush_segment : ℕ → M (Queue File) (Unit {0})
  flush_segment i = do lock_by_index i; unlock_by_index i

  -- `for i := range q.segments`: the first argument counts the rounds left.
  unfoldable pub flush_segments : ℕ → ℕ → M (Queue File) (Unit {0})
  flush_segments zero i = pure tt
  flush_segments (suc n) i = flush_segment i >> flush_segments n (i + 1)

  unfoldable pub do_flush : M (Queue File) (Unit {0})
  do_flush q =
      (do
        flush_segments q.queue_capacity_segments 0
        modify λ t.
            let (wid, woffset) = get_writing_offset F t.meta in
            record t { meta = put_watermark_offset F t.meta wid woffset })
        q

  -- The flush routine flushes a last time when it is cancelled, and Close waits for that. What
  -- fails to unmap is logged.
  unfoldable pub close : M (Queue File) (Unit {0})
  close q = do_flush (record q { ready = false })

  -- An offset that cannot be decoded is logged, and then committed as zero.
  unfoldable pub ack : List ℕ → Queue File → Queue File
  ack last_offset q =
      let (id, offset) = decoded (decode_offset last_offset) in
      if not q.ready then q else record q { meta = put_committed_offset F q.meta id offset }

  unfoldable pub total_size : Queue File → ℕ
  total_size q = q.queue_capacity_segments * q.segment_size

  unfoldable pub used_count : Queue File → ℤ
  used_count q = q.used_size

  -- The writing offset becomes the watermark and the reading offset the committed one.
  unfoldable pub restore_offsets : Metadata File → Metadata File
  restore_offsets md =
      let (cm_id, cm_offset) = get_committed_offset F md in
      let (wm_id, wm_offset) = get_watermark_offset F md in
      put_reading_offset F (put_writing_offset F md wm_id wm_offset) cm_id cm_offset

module _ (F : MmapFile) (os : System) (fuel : ℕ) where
  open F use {File}

  -- Initialize behind the creation of the metadata.
  unfoldable pub start : Metadata File → M (Queue File) (Unit {0})
  start md q =
      (do
        _ ← get_segment F os fuel (get_committed_offset F md).0
        _ ← get_segment F os fuel (get_watermark_offset F md).0
        modify
            λ t. record t { flush_signals = 0; mark_read = []; locker = λ _. false; ready = true })
        (record q { meta = restore_offsets F md; mapped = λ _. false })

  unfoldable pub start_with : MetaResult (Metadata File) → M (Queue File) (Unit {0})
  start_with (Meta.err e) q = (err (cannot_create_metadata e), q)
  start_with (Meta.ok md) q = start md q

  -- `page` is os.Getpagesize() and `opened` is what opening the metadata file answers.
  unfoldable pub initialize : ℕ → Option File → M (Queue File) (Unit {0})
  initialize page opened q =
      start_with (new_metadata F opened q.queue_capacity_segments) (record q {
        segment_size = adjust_segment_size page q.segment_size;
        max_in_mem_segments = adjust_max_in_mem q.max_in_mem_segments;
      })

module _ (C : Codec) (F : MmapFile) (os : System) (fuel : ℕ) where
  open F use {File}
  open C use {Event, marshal, unmarshal}

  -- Enqueue behind Marshal
  unfoldable pub enqueue_marshalled : Option (List ℕ) → M (Queue File) (Unit {0})
  enqueue_marshalled none q = (err cannot_marshal, q)
  enqueue_marshalled (some bytes) q =
      if ltb q.max_event_size (length bytes)
      then (err (too_large (length bytes)), q)
      else enqueue F os fuel bytes q

  unfoldable pub enqueue_event : Event → M (Queue File) (Unit {0})
  enqueue_event e q = if not q.ready then (err closed, q) else enqueue_marshalled (marshal e) q

  -- Dequeue behind Unmarshal
  unfoldable pub sequence_event : Option Event → ℕ → ℕ → M (Queue File) (Event × List ℕ)
  sequence_event none id offset q = (err cannot_unmarshal, q)
  sequence_event (some e) id offset q = (ok (e, encode_offset id offset), q)

  unfoldable pub dequeue_event : M (Queue File) (Event × List ℕ)
  dequeue_event q =
      let run =
        after (dequeue F os fuel q).0 (dequeue F os fuel q).1
          (λ out. sequence_event (unmarshal out.0) out.1 out.2) in
      if not q.ready then (err closed, q) else run
