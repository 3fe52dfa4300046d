-- ===== src/Mmap/State.antt =====
-- The running state of plugins/queue/mmap/queue.go, and plugins/queue/mmap/queue_lock.go.
use skywalking_satellite.Base.{ℕ, ◌%◌, Bool, true, false, List, update, if◌then◌else◌}
use skywalking_satellite.Base.Int.{ℤ}
use skywalking_satellite.Mmap.Meta.{Metadata}
use skywalking_satellite.Mmap.Outcome.{M, ok, spin}

-- `files` are the segment files by index: a file keeps its bytes while it is not mapped, since the
-- mapping is shared. `mapped` says which entries of `segments` are not nil. `flush_signals` counts
-- what was sent on flushChannel and `mark_read` is the buffer of markReadChannel.
pub record Queue (File : Type 0) : Type 0 where
  pub segment_size : ℕ
  pub max_in_mem_segments : ℕ
  pub queue_capacity_segments : ℕ
  pub flush_ceiling_num : ℕ
  pub max_event_size : ℕ
  pub meta : Metadata File
  pub files : ℕ → File
  pub mapped : ℕ → Bool
  pub mmap_count : ℕ
  pub unflushed_num : ℕ
  pub flush_signals : ℕ
  pub mark_read : List ℕ
  pub ready : Bool
  pub locker : ℕ → Bool
  pub used_size : ℤ

module _ {File : Type 0} where
  abbrev pub get_index : Queue File → ℕ → ℕ
  get_index q segment_id = segment_id % q.queue_capacity_segments

  -- CompareAndSwap in a loop: a lock that is held, and that no other routine gives back, is
  -- waited for without end.
  abbrev pub lock_by_index : ℕ → M (Queue File) (Unit {0})
  lock_by_index i q =
      if q.locker i then (spin, q) else (ok tt, record q { locker = update q.locker i true })

  abbrev pub unlock_by_index : ℕ → M (Queue File) (Unit {0})
  unlock_by_index i q =
      if q.locker i then (ok tt, record q { locker = update q.locker i false }) else (spin, q)

  abbrev pub lock : ℕ → M (Queue File) (Unit {0})
  lock segment_id q = lock_by_index (get_index q segment_id) q

  abbrev pub unlock : ℕ → M (Queue File) (Unit {0})
  unlock segment_id q = unlock_by_index (get_index q segment_id) q
