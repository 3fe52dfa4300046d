-- ===== src/Mmap/Fifo.antt =====
-- The contract of the queue: it holds a list of messages. The modules below prove that enqueue adds
-- one at the end and that dequeue takes the first.
pub mod Alike
pub mod Marks
pub mod Enqueue
pub mod Dequeue
use skywalking_satellite.Base.{ℕ, ◌+◌, ◌/◌, ◌^◌, ◌≤◌, ◌<◌, List, [], ◌∷◌, length}
use skywalking_satellite.Mmap.File.{MmapFile}
use skywalking_satellite.Mmap.Meta.{meta_size, get_reading_offset, get_writing_offset}
use skywalking_satellite.Mmap.State.{Queue}
use skywalking_satellite.Mmap.Layout.{Laid}
use skywalking_satellite.Mmap.Write.{Ready}

-- Every message is of a size that the queue accepts.
abbrev pub Fit : ℕ → List (List ℕ) → Type 0
Fit max [] = Unit {0}
Fit max (m ∷ ms) = (length m ≤ max) × Fit max ms

-- The queue holds the messages `ms`, oldest first: they lie from the reading offset up to the
-- writing offset, in segments that share no file.
pub record Holds (F : MmapFile) (size capacity : ℕ) (q : Queue (F.File)) (ms : List (List ℕ))
    : Type 0 where
  pub ready : Ready F size capacity q
  pub word_size : 8 ≤ size
  pub int_size : size ≤ 2 ^ 63
  pub int_events : q.max_event_size < 2 ^ 63
  pub meta_file : meta_size ≤ F.size q.meta.meta_file
  pub laid :
      Laid F size capacity q.files (get_reading_offset F q.meta) ms (get_writing_offset F q.meta)
  pub reading_inside : (get_reading_offset F q.meta).1 < size
  pub writing_inside : (get_writing_offset F q.meta).1 < size
  pub near : (get_writing_offset F q.meta).0 < (get_reading_offset F q.meta).0 + capacity
  pub int_segments : (get_writing_offset F q.meta).0 < 2 ^ 63
  pub sizes : Fit q.max_event_size ms

-- The most segments that one message gets.
abbrev pub needed : ℕ → ℕ → ℕ
needed size max = 3 + max / size
