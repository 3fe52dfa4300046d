-- ===== src/Mmap/Operation.antt =====
-- plugins/queue/mmap/queue_operation.go: a message is a word with its length and then its bytes,
-- which may go on in the next segments.
use skywalking_satellite.Base.{
  ℕ, zero, suc, ◌+◌, ◌-◌, ◌/◌, Bool, ◌&&◌, none, some, List, [], ◌∷◌, ◌++◌, length, drop, ltb, leb,
  ◌==◌, update, if◌then◌else◌,
}
use skywalking_satellite.Base.Int.{ℤ, pos, negsuc, ◌+ℤ◌, ◌-ℤ◌}
use skywalking_satellite.Mmap.File.{MmapFile, System}
use skywalking_satellite.Mmap.Meta.{
  uint64_to_int, get_reading_offset, get_writing_offset, put_reading_offset, put_writing_offset,
}
use skywalking_satellite.Mmap.Outcome.{
  M, Outcome, ok, err, spin, pure, modify, after, ◌>>=◌, ◌>>◌, full, empty, out_of_bounds,
}
use skywalking_satellite.Mmap.State.{Queue}
use skywalking_satellite.Mmap.Segments.{with_segment, on_mark_read}

abbrev pub uint64_size : ℕ
uint64_size = 8

unfoldable pub int_to_uint64 : ℤ → ℕ
int_to_uint64 (pos v) = v
int_to_uint64 (negsuc v) = 0

-- `if offset+uInt64Size > SegmentSize { id, offset = id+1, 0 }`
abbrev pub skip_tail : ℕ → ℕ × ℕ → ℕ × ℕ
skip_tail size (id, offset) = if ltb size (offset + uint64_size) then (id + 1, 0) else (id, offset)

-- `if offset == SegmentSize { id, offset = id+1, 0 }`
abbrev pub carry : ℕ → ℕ × ℕ → ℕ × ℕ
carry size (id, offset) = if offset == size then (id + 1, 0) else (id, offset)

module _ (F : MmapFile) where
  open F use {File, write_at, read_at, write_uint64_at, read_uint64_at}

  unfoldable pub is_empty : Queue File → Bool
  is_empty q =
      let (rid, roffset) = get_reading_offset F q.meta in
      let (wid, woffset) = get_writing_offset F q.meta in (rid == wid) && (roffset == woffset)

  -- `wid >= rid + capacity - 1 - maxEventSize/segmentSize`, without a subtraction.
  unfoldable pub is_full : Queue File → Bool
  is_full q =
      leb ((get_reading_offset F q.meta).0 + q.queue_capacity_segments)
        ((get_writing_offset F q.meta).0 + 1 + q.max_event_size / q.segment_size)

  -- The segment of an index gets the content `f`.
  abbrev pub put_file : ℕ → File → Queue File → Queue File
  put_file i f q = record q { files = update q.files i f }

  -- segment.WriteAt at an index: the count, or its error.
  unfoldable pub write_segment : ℕ → List ℕ → ℕ → M (Queue File) ℕ
  write_segment i bytes offset q =
      let (n, f) = write_at (q.files i) bytes offset in
      elim n [ none ↦ (err out_of_bounds, put_file i f q) | some k ↦ (ok k, put_file i f q) ]

  unfoldable pub read_segment : ℕ → ℕ → ℕ → M (Queue File) (List ℕ)
  read_segment i n offset q = elim (read_at (q.files i) n offset) [
    | none ↦ (err out_of_bounds, q)
    | some bs ↦ (ok bs, q)
  ]

  -- An error of WriteAt or ReadAt is looked at after the lock is given back.
  unfoldable pub try : {A : Type 0} → M (Queue File) A → M (Queue File) (Outcome A)
  try m q = (ok (m q).0, (m q).1)

  unfoldable pub rethrow : {A : Type 0} → Outcome A → M (Queue File) A
  rethrow o q = (o, q)

module _ {File : Type 0} where
  -- The counting at the end of enqueue: at the ceiling it signals the flush routine.
  unfoldable pub count_unflushed : Queue File → Queue File
  count_unflushed q =
      let n = q.unflushed_num + 1 in
      record q {
        unflushed_num = if n == q.flush_ceiling_num then 0 else n;
        flush_signals = if n == q.flush_ceiling_num then q.flush_signals + 1 else q.flush_signals;
      }

module _ (F : MmapFile) (os : System) where
  open F use {File}

  -- The send on markReadChannel, whose buffer holds one: with the buffer taken the caller waits
  -- until the swapper has handled what is in it.
  unfoldable pub push_mark : List ℕ → ℕ → M (Queue File) (Unit {0})
  push_mark [] id q = (ok tt, record q { mark_read = id ∷ [] })
  push_mark (old ∷ rest) id q =
      after (on_mark_read F os old q).0 (on_mark_read F os old q).1
        (λ _ t. (ok tt, record t { mark_read = rest ++ (id ∷ []) }))

  unfoldable pub send_mark_read : ℕ → M (Queue File) (Unit {0})
  send_mark_read id q = push_mark q.mark_read id q

module _ (F : MmapFile) (os : System) (fuel : ℕ) where
  open F use {File, write_uint64_at, read_uint64_at}

  unfoldable pub write_length : ℕ → ℕ → ℕ → M (Queue File) (ℕ × ℕ)
  write_length len id offset q =
      let (id', offset') = skip_tail q.segment_size (id, offset) in
      (do
        with_segment F os fuel id' λ i.
            modify
              λ t. put_file F i (write_uint64_at (t.files i) (int_to_uint64 (pos len)) offset') t
        pure (carry q.segment_size (id', offset' + uint64_size)))
        q

  unfoldable pub read_length : ℕ → ℕ → M (Queue File) (ℕ × ℕ × ℕ)
  read_length id offset q =
      let (id', offset') = skip_tail q.segment_size (id, offset) in
      (do
        num ← with_segment F os fuel id' λ i t. (ok (read_uint64_at (t.files i) offset'), t)
        let (id'', offset'') = carry q.segment_size (id', offset' + uint64_size)
        pure (id'', offset'', uint64_to_int num))
        q

  -- One round of the loop of writeBytes: how many bytes were written.
  unfoldable pub write_chunk : List ℕ → ℕ → ℕ → M (Queue File) ℕ
  write_chunk bytes id offset = do
    o ← with_segment F os fuel id λ i. try F (write_segment F i bytes offset)
    rethrow F o

  unfoldable pub read_chunk : ℕ → ℕ → ℕ → M (Queue File) (List ℕ)
  read_chunk n id offset = do
    o ← with_segment F os fuel id λ i. try F (read_segment F i n offset)
    rethrow F o

  -- The loop of writeBytes over `bytes[counter:]`, with a bound on the rounds.
  unfoldable pub write_loop : ℕ → List ℕ → ℕ → ℕ → M (Queue File) (ℕ × ℕ)
  write_loop zero bytes id offset q = (spin, q)
  write_loop (suc rounds) bytes id offset q =
      after (write_chunk bytes id offset q).0 (write_chunk bytes id offset q).1 λ n t.
        let (id', offset') = carry t.segment_size (id, offset + n) in
        let rest = write_loop rounds (drop n bytes) id' offset' t in
        if n == length bytes then (ok (id', offset'), t) else rest

  -- A round that is not the last writes at least one byte.
  unfoldable pub write_bytes : List ℕ → ℕ → ℕ → M (Queue File) (ℕ × ℕ)
  write_bytes bytes = write_loop (suc (length bytes)) bytes

  -- The loop of readBytes: `acc` is `res[:counter]`, `left` is `length - counter`.
  unfoldable pub read_loop : ℕ → List ℕ → ℕ → ℕ → ℕ → M (Queue File) (List ℕ × ℕ × ℕ)
  read_loop zero acc left id offset q = (spin, q)
  read_loop (suc rounds) acc left id offset q =
      after (read_chunk left id offset q).0 (read_chunk left id offset q).1 λ bs t.
        let (id', offset') = carry t.segment_size (id, offset + length bs) in
        let rest = read_loop rounds (acc ++ bs) (left - length bs) id' offset' t in
        if length bs == left then (ok (acc ++ bs, id', offset'), t) else rest

  unfoldable pub read_bytes : ℕ → ℕ → ℕ → M (Queue File) (List ℕ × ℕ × ℕ)
  read_bytes id offset len = read_loop (suc len) [] len id offset

  unfoldable pub enqueue : List ℕ → M (Queue File) (Unit {0})
  enqueue bytes q =
      let (id, offset) = get_writing_offset F q.meta in
      let run =
        (do
          (id', offset') ← write_length (length bytes) id offset
          (id'', offset'') ← write_bytes bytes id' offset'
          modify λ t.
              let t' = record t { meta = put_writing_offset F t.meta id'' offset'' } in
              let t'' = count_unflushed t' in
              record t'' { used_size = t''.used_size +ℤ pos (length bytes) })
          q in
      if is_full F q then (err full, q) else run

  unfoldable pub dequeue : M (Queue File) (List ℕ × ℕ × ℕ)
  dequeue q =
      let (pre_id, pre_offset) = get_reading_offset F q.meta in
      let run =
        (do
          (id, offset, len) ← read_length pre_id pre_offset
          (bytes, id', offset') ← read_bytes id offset len
          modify (λ t. record t { meta = put_reading_offset F t.meta id' offset' })
          (if id' == pre_id then pure tt else send_mark_read F os pre_id)
          modify (λ t. record t { used_size = t.used_size -ℤ pos (length bytes) })
          pure (bytes, id', offset'))
          q in
      if is_empty F q then (err empty, q) else run
