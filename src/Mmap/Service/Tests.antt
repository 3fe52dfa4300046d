-- ===== src/Mmap/Service/Tests.antt =====
-- The theorems of Enqueue, Dequeue, Ack, doFlush and Initialize at the small queues.
use skywalking_satellite.Base.{◌≡◌, refl, List, ℕ, some, sym, [], arith, inr, ◌∷◌, true}
use skywalking_satellite.Mmap.Ram.{ram}
use skywalking_satellite.Mmap.Tests.{
  fine, small, message, holding, opens_all, small-Holds, small_not_full, small_low, holding-Holds,
}
use skywalking_satellite.Mmap.Service.{
  Codec, enqueue_event, dequeue_event, do_flush, ack, initialize, adjust_segment_size,
}
use skywalking_satellite.Mmap.Service.Flush.{Recorded, do_flush-Ensures}
use skywalking_satellite.Mmap.Service.Restart.{reboot, restart-Ensures}
use skywalking_satellite.Mmap.Service.Events.{enqueue_event-Ensures, dequeue_event-Ensures}
use skywalking_satellite.Mmap.Fifo.{Holds}
use skywalking_satellite.Mmap.Fifo.Enqueue.{Enqueued}
use skywalking_satellite.Mmap.Meta.{
  get_writing_offset, get_committed_offset, get_reading_offset, get_version, get_capacity,
}
use skywalking_satellite.Mmap.Meta.Laws.{watermark}
use skywalking_satellite.Mmap.Outcome.{Ensures, ◌>>◌}
use skywalking_satellite.Base.Int.{pos}

abbrev raw : Codec
raw = record {
  Event = List ℕ;
  marshal = λ e. some e;
  unmarshal = λ bs. some bs;
  round_trip = λ e bytes h. sym h;
}

enqueue_event-Ensures_example :
    Ensures ⊥
      (λ _ t. Enqueued ram fine 3 16 6 message [] small t)
      (enqueue_event raw ram fine 3 message small).0
      (enqueue_event raw ram fine 3 message small).1
enqueue_event-Ensures_example =
    enqueue_event-Ensures raw ram fine 3 16 6 ⊥ message message [] small small-Holds refl refl
      (omega arith) (omega arith) small_low small_not_full (inr (opens_all, omega arith))

dequeue_event-Ensures_example :
    Ensures ⊥
      (λ out t.
        (out.0 ≡ message)
        × Holds ram 16 6 t []
        × (get_committed_offset ram (ack ram out.1 t).meta ≡ get_reading_offset ram t.meta)
        × Holds ram 16 6 (ack ram out.1 t) [])
      (dequeue_event raw ram fine 3 holding).0
      (dequeue_event raw ram fine 3 holding).1
dequeue_event-Ensures_example =
    dequeue_event-Ensures raw ram fine 3 16 6 ⊥ message message [] holding holding-Holds refl refl
      (omega arith) (inr (opens_all, omega arith))

do_flush-Ensures_example :
    Ensures ⊥
      (λ _ t.
        Recorded ram 16 6 watermark (get_writing_offset ram holding.meta) holding t
        × Holds ram 16 6 t (message ∷ []))
      (do_flush ram holding).0
      (do_flush ram holding).1
do_flush-Ensures_example = do_flush-Ensures ram 16 6 ⊥ holding (message ∷ []) holding-Holds

restart-Ensures_example :
    Ensures ⊥
      (λ _ t. Holds ram 16 6 t (message ∷ []) × (t.ready ≡ true) × (t.used_size ≡ pos 0))
      ((do_flush ram >> λ t.
          initialize ram fine 3 16 (some t.meta.meta_file) (reboot ram fine 3 16 6 t))
        holding).0
      ((do_flush ram >> λ t.
          initialize ram fine 3 16 (some t.meta.meta_file) (reboot ram fine 3 16 6 t))
        holding).1
unfolding get_committed_offset get_reading_offset get_writing_offset get_version get_capacity
    adjust_segment_size
restart-Ensures_example =
    restart-Ensures ram fine 3 16 6 ⊥ 16 holding [] (message ∷ []) holding-Holds refl
      holding-Holds.sizes (omega arith) (omega arith) refl refl refl (inr opens_all)
