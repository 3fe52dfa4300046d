-- ===== src/Mmap/Segments.antt =====
-- plugins/queue/mmap/segment_operation.go: mapping segments on demand, and swapping them out.
use skywalking_satellite.Base.{
  ℕ, zero, suc, ◌+◌, ◌-◌, ◌*◌, ◌/◌, Bool, true, false, ◌&&◌, ◌||◌, not, ltb, leb, ◌==◌, update,
  if◌then◌else◌,
}
use skywalking_satellite.Mmap.File.{MmapFile, System}
use skywalking_satellite.Mmap.Meta.{get_reading_offset, get_writing_offset}
use skywalking_satellite.Mmap.Outcome.{
  M, ok, err, spin, pure, after, logged, ◌>>=◌, ◌>>◌, cannot_open, cannot_flush, cannot_unmap,
}
use skywalking_satellite.Mmap.State.{Queue, get_index, lock, unlock}

-- How one pass of the loop over the candidates in doSwap ends.
pub data Pass : Type 0 where
  finished returned : Pass

module _ (F : MmapFile) (os : System) where
  open F use {File}

  unfoldable pub map_segment : ℕ → M (Queue File) (Unit {0})
  map_segment segment_id q =
      let index = get_index q segment_id in
      if q.mapped index
      then (ok tt, q)
      else (if os.opens index
          then (
            ok tt,
            record q { mmap_count = q.mmap_count + 1; mapped = update q.mapped index true },
          )
          else (err cannot_open, q))

  -- mmap_count counts the mapped segments, so it is positive here.
  unfoldable pub unmap_segment : ℕ → M (Queue File) (Unit {0})
  unmap_segment segment_id q =
      let index = get_index q segment_id in
      if not (q.mapped index)
      then (ok tt, q)
      else (if not (os.flushes index)
          then (err cannot_flush, q)
          else (if not (os.unmaps index) then (err cannot_unmap, q) else (
            ok tt,
            record q { mmap_count = q.mmap_count - 1; mapped = update q.mapped index false },
          )))

  -- One candidate of the inner loop: it is skipped, or unmapped, and then the loop may return.
  unfoldable pub swap_out : ℕ → ℕ → Bool → ℕ → M (Queue File) Pass
  swap_out w_index r_index clear_all i q =
      if (get_index q i == w_index) || (get_index q i == r_index)
      then (ok finished, q)
      else (do
        unmap_segment i
        λ t. (
          ok (
              if not clear_all
                && leb (t.max_in_mem_segments / 2 - 1) (t.max_in_mem_segments - t.mmap_count)
              then returned
              else finished),
          t,
        ))
          q

  -- `for i := logicWID - 1; i >= 0 && i >= logicWID - MaxInMemSegments; i--`: the first argument
  -- counts the rounds left, the second is i + 1.
  unfoldable pub swap_pass : ℕ → ℕ → ℕ → ℕ → Bool → M (Queue File) Pass
  swap_pass zero i w_index r_index clear_all q = (ok finished, q)
  swap_pass (suc n) zero w_index r_index clear_all q = (ok finished, q)
  swap_pass (suc n) (suc i) w_index r_index clear_all q =
      let (o, t) = swap_out w_index r_index clear_all i q in
      after o t
        (elim [ returned ↦ pure returned | finished ↦ swap_pass n i w_index r_index clear_all ])

  -- The outer loop on fuel; without fuel it is still running.
  unfoldable pub swap_loop : ℕ → ℕ → ℕ → ℕ → Bool → M (Queue File) (Unit {0})
  swap_loop zero logic_wid w_index r_index clear_all q =
      if leb q.max_in_mem_segments q.mmap_count then (spin, q) else (ok tt, q)
  swap_loop (suc fuel) logic_wid w_index r_index clear_all q =
      let run =
        after (swap_pass q.max_in_mem_segments logic_wid w_index r_index clear_all q).0
          (swap_pass q.max_in_mem_segments logic_wid w_index r_index clear_all q).1
          (elim [
            | returned ↦ pure tt
            | finished ↦ swap_loop fuel logic_wid w_index r_index clear_all
          ]) in
      if leb q.max_in_mem_segments q.mmap_count then run else (ok tt, q)

  unfoldable pub do_swap : ℕ → M (Queue File) (Unit {0})
  do_swap fuel q =
      let (rid, _) = get_reading_offset F q.meta in
      let (wid, _) = get_writing_offset F q.meta in
      let logic_wid = wid + q.queue_capacity_segments in
      let clear_all = ltb (q.max_in_mem_segments * 3 / 2) (wid + 1 - rid) in
      swap_loop fuel logic_wid (get_index q wid) (get_index q rid) clear_all q

  -- The receive on insufficientMemChannel in segmentSwapper: an error of doSwap is only logged.
  unfoldable pub on_insufficient_mem : ℕ → M (Queue File) (Unit {0})
  on_insufficient_mem fuel q =
      if leb q.max_in_mem_segments q.mmap_count then logged (do_swap fuel) q else (ok tt, q)

  -- The receive on markReadChannel in segmentSwapper.
  unfoldable pub on_mark_read : ℕ → M (Queue File) (Unit {0})
  on_mark_read id = do lock id; logged (unmap_segment id); unlock id

  -- With too many segments mapped the caller waits for the swapper's answer, so the swapper's work
  -- is part of the call.
  unfoldable pub ensure_room : ℕ → M (Queue File) (Unit {0})
  ensure_room fuel q =
      if leb q.max_in_mem_segments q.mmap_count then on_insufficient_mem fuel q else (ok tt, q)

  -- The result is the index of the mapped segment in `files`.
  unfoldable pub get_segment : ℕ → ℕ → M (Queue File) ℕ
  get_segment fuel segment_id = do
    ensure_room fuel
    map_segment segment_id
    λ q.
        let index = get_index q segment_id in
        if q.mapped index then (ok index, q) else (err cannot_open, q)

  -- The pattern of every access: lock the segment, get it, use it, give the lock back. When the
  -- segment cannot be got the function returns with the lock held.
  unfoldable pub with_segment : {A : Type 0} → ℕ → ℕ → (ℕ → M (Queue File) A) → M (Queue File) A
  with_segment fuel segment_id act = do
    lock segment_id
    i ← get_segment fuel segment_id
    a ← act i
    unlock segment_id
    pure a
