-- ===== src/Mmap/Tests.antt =====
-- A small queue, empty and with one message, and the theorems of the queue at these.
use skywalking_satellite.Base.{
  ℕ, ◌≡◌, refl, true, false, List, [], ◌∷◌, arith, ◌+◌, ◌≤◌, ◌^◌, inr, some, ap,
}
use skywalking_satellite.Base.Int.{pos}
use skywalking_satellite.Mmap.File.{System}
use skywalking_satellite.Mmap.Meta.{get_writing_offset, get_reading_offset}
use skywalking_satellite.Mmap.Outcome.{ok, Ensures, Ensures-total}
use skywalking_satellite.Mmap.State.{Queue}
use skywalking_satellite.Mmap.Operation.{enqueue, dequeue, is_full}
use skywalking_satellite.Mmap.Ram.{RamFile, ram, blank, write_word, write_at}
use skywalking_satellite.Mmap.Fifo.{Holds}
use skywalking_satellite.Mmap.Meta.{Metadata}
use skywalking_satellite.Mmap.Meta.Laws.{get, put, get-put, reading, writing}
use skywalking_satellite.Mmap.Offset.{encode_offset, decode_offset}
use skywalking_satellite.Mmap.Offset.RoundTrip.{decode_offset-encode_offset}
use skywalking_satellite.Mmap.History.{begun, enqueued, Fifo, Run-Fifo}
use skywalking_satellite.Mmap.Fifo.Enqueue.{Enqueued, enqueue-Ensures}
use skywalking_satellite.Mmap.Fifo.Dequeue.{Dequeued, dequeue-Ensures}

abbrev pub fine : System
fine = record { opens = λ _. true; flushes = λ _. true; unmaps = λ _. true }

abbrev pub small : Queue RamFile
small = record {
  segment_size = 16;
  max_in_mem_segments = 10;
  queue_capacity_segments = 6;
  flush_ceiling_num = 3;
  max_event_size = 20;
  meta = record { meta_file = blank 80; capacity = 6 };
  files = λ _. blank 16;
  mapped = λ _. false;
  mmap_count = 0;
  unflushed_num = 0;
  flush_signals = 0;
  mark_read = [];
  ready = true;
  locker = λ _. false;
  used_size = pos 0;
}

abbrev pub message : List ℕ
message = 1 ∷ 2 ∷ 3 ∷ []

pub opens_all : (i : ℕ) → fine.opens i ≡ true
opens_all i = refl

pub small-Holds : Holds ram 16 6 small []
unfolding get_reading_offset get_writing_offset
small-Holds = record {
  ready = record { segment = refl; ring = refl; unlocked = λ i. refl; sized = λ i. refl };
  word_size = omega arith;
  int_size = omega arith;
  int_events = omega arith;
  meta_file = omega arith;
  laid = refl;
  reading_inside = omega arith;
  writing_inside = omega arith;
  near = omega arith;
  int_segments = omega arith;
  sizes = tt;
}

pub small_not_full : is_full ram small ≡ false
unfolding is_full get_reading_offset get_writing_offset
small_not_full = refl

pub small_low : (get_reading_offset ram small.meta).0 + 6 ≤ 2 ^ 63
unfolding get_reading_offset
small_low = omega arith

enqueue-Ensures_example :
    Ensures ⊥
      (λ _ t. Enqueued ram fine 3 16 6 message [] small t)
      (enqueue ram fine 3 message small).0
      (enqueue ram fine 3 message small).1
enqueue-Ensures_example =
    enqueue-Ensures ram fine 3 16 6 ⊥ message [] small small-Holds (omega arith) (omega arith)
      small_low small_not_full (inr (opens_all, omega arith))

abbrev pub holding : Queue RamFile
holding = record small {
  meta = record {
    meta_file = write_word (write_word (write_word (blank 80) 11 16) 1 0) 6 72;
    capacity = 6;
  };
  files = λ _. (write_at (write_word (blank 16) 3 0) message 8).1;
}

pub holding-Holds : Holds ram 16 6 holding (message ∷ [])
unfolding get_reading_offset get_writing_offset
holding-Holds = record {
  ready = record { segment = refl; ring = refl; unlocked = λ i. refl; sized = λ i. refl };
  word_size = omega arith;
  int_size = omega arith;
  int_events = omega arith;
  meta_file = omega arith;
  laid = (refl, (refl, (refl, (refl, tt))), refl);
  reading_inside = omega arith;
  writing_inside = omega arith;
  near = omega arith;
  int_segments = omega arith;
  sizes = (omega arith, tt);
}

dequeue-Ensures_example :
    Ensures ⊥
      (λ out t. Dequeued ram fine 3 16 6 message [] holding out t)
      (dequeue ram fine 3 holding).0
      (dequeue ram fine 3 holding).1
dequeue-Ensures_example =
    dequeue-Ensures ram fine 3 16 6 ⊥ message [] holding holding-Holds (omega arith)
      (inr (opens_all, omega arith))

abbrev blank_meta : Metadata RamFile
blank_meta = record { meta_file = blank 80; capacity = 6 }

get-put_example : get ram reading (put ram writing (blank_meta) 4 7) ≡ get ram reading blank_meta
get-put_example =
    get-put ram writing reading blank_meta 4 7 (omega arith) (omega arith) (omega arith)

decode_offset-encode_offset_example : decode_offset (encode_offset 12 340) ≡ some (12, 340)
decode_offset-encode_offset_example = decode_offset-encode_offset 12 340 (omega arith) (omega arith)

one_enqueued : enqueue ram fine 3 message small ≡ (ok tt, (enqueue ram fine 3 message small).1)
one_enqueued =
    ap (λ o. (o, (enqueue ram fine 3 message small).1)) ((Ensures-total enqueue-Ensures_example).1)

Run-Fifo_example :
    Fifo ram 16 6 small.max_event_size (message ∷ []) [] (enqueue ram fine 3 message small).1
Run-Fifo_example =
    Run-Fifo ram 16 6 small (enqueue ram fine 3 message small).1 (message ∷ []) [] small-Holds
      (omega arith) (enqueued fine 3 message begun (omega arith) small_low one_enqueued)
