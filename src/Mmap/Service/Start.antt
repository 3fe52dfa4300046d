-- ===== src/Mmap/Service/Start.antt =====
-- A restart: Initialize brings back what lies between the committed offset and the watermark.
use skywalking_satellite.Base.{
  ℕ, ◌+◌, ◌^◌, ◌≤◌, ◌<◌, ◌≡◌, refl, sym, subst, ap, ◌∙◌, inl, inr, true, false, List, [], arith,
}
use skywalking_satellite.Mmap.File.{MmapFile, System}
use skywalking_satellite.Mmap.Meta.{
  Metadata, meta_size, get_reading_offset, get_writing_offset, get_watermark_offset,
  get_committed_offset, put_writing_offset,
}
use skywalking_satellite.Mmap.Meta.Laws.{reading, writing, get-put, put_size}
use skywalking_satellite.Mmap.Outcome.{Ensures, holds, Ensures-after}
use skywalking_satellite.Mmap.State.{Queue}
use skywalking_satellite.Mmap.Access.{Fits, get_segment-Ensures}
use skywalking_satellite.Mmap.Kept.{Quiet, Quiet-trans}
use skywalking_satellite.Mmap.Position.{Place, AtMost}
use skywalking_satellite.Mmap.Layout.{Laid, Laid-AtMost}
use skywalking_satellite.Mmap.Bytes.{Sized}
use skywalking_satellite.Mmap.Fifo.{Holds, Fit}
use skywalking_satellite.Mmap.Service.{restore_offsets, start}

module _ (F : MmapFile) (os : System) (fuel size capacity : ℕ) where
  open F use {File}

  -- What the files of a stopped queue hold: messages from the committed offset to the watermark.
  pub record Saved (files : ℕ → File) (max : ℕ) (md : Metadata File) (ms : List (List ℕ))
      : Type 0 where
    pub sized : Sized F size capacity files
    pub word_size : 8 ≤ size
    pub int_size : size ≤ 2 ^ 63
    pub int_events : max < 2 ^ 63
    pub meta_file : meta_size ≤ F.size md.meta_file
    pub laid : Laid F size capacity files (get_committed_offset F md) ms (get_watermark_offset F md)
    pub committed_inside : (get_committed_offset F md).1 < size
    pub watermark_inside : (get_watermark_offset F md).1 < size
    pub near : (get_watermark_offset F md).0 < (get_committed_offset F md).0 + capacity
    pub int_segments : (get_watermark_offset F md).0 < 2 ^ 63
    pub sizes : Fit max ms

  restored :
      (files : ℕ → File) (max : ℕ) (md : Metadata File) (ms : List (List ℕ))
      → Saved files max md ms
      → (get_reading_offset F (restore_offsets F md) ≡ get_committed_offset F md)
        × (get_writing_offset F (restore_offsets F md) ≡ get_watermark_offset F md)
        × (F.size (restore_offsets F md).meta_file ≡ F.size md.meta_file)
  unfolding restore_offsets
  restored files max md ms s = (
    get-put F reading reading with_writing cm.0 cm.1 there hc ho,
    get-put F reading writing with_writing cm.0 cm.1 there hc ho
        ∙ get-put F writing writing md wm.0 wm.1 s.meta_file s.int_segments hw,
    put_size F reading with_writing cm.0 cm.1 ∙ put_size F writing md wm.0 wm.1,
  )
    where
      cm : Place
      cm = get_committed_offset F md

      wm : Place
      wm = get_watermark_offset F md

      with_writing : Metadata File
      with_writing = put_writing_offset F md wm.0 wm.1

      at : AtMost cm wm
      at = Laid-AtMost F size capacity files cm ms wm s.laid

      there : meta_size ≤ F.size with_writing.meta_file
      there = omega (arith, put_size F writing md wm.0 wm.1, s.meta_file)

      hc : cm.0 < 2 ^ 63
      hc = omega (arith, at, s.int_segments)

      ho : cm.1 < 2 ^ 63
      ho = omega (arith, s.committed_inside, s.int_size)

      hw : wm.1 < 2 ^ 63
      hw = omega (arith, s.watermark_inside, s.int_size)

  pub start-Ensures :
      (Fail : Type 0) (md : Metadata File) (q : Queue File) (ms : List (List ℕ))
      → Saved q.files q.max_event_size md ms
      → q.segment_size ≡ size
      → q.queue_capacity_segments ≡ capacity
      → Fits F os Fail q 2
      → Ensures Fail
          (λ _ t. Holds F size capacity t ms × (t.ready ≡ true) × (t.used_size ≡ q.used_size))
          (start F os fuel md q).0
          (start F os fuel md q).1
  unfolding start
  start-Ensures Fail md q ms s seg cap room =
      Ensures-after _ _
        (get_segment-Ensures F os Fail fuel (get_committed_offset F md).0 1 opened
          (Fits_opened room))
        λ i t p.
          Ensures-after _ _
            (get_segment-Ensures F os Fail fuel (get_watermark_offset F md).0 0 t p.2)
            λ j u r. holds (running u (Quiet-trans p.1 r.1), refl, (Quiet-trans p.1 r.1).0.used)
    where
      opened : Queue File
      opened = record q { meta = restore_offsets F md; mapped = λ _. false }

      Fits_opened : Fits F os Fail q 2 → Fits F os Fail opened 2
      Fits_opened (inl f) = inl f
      Fits_opened (inr r) = inr r

      running :
          (u : Queue File)
          → Quiet opened u
          → Holds F size capacity
              (record u { flush_signals = 0; mark_read = []; locker = λ _. false; ready = true })
              ms
      running u k = record {
        ready = record {
          segment = k.0.segment_size ∙ seg;
          ring = k.0.capacity ∙ cap;
          unlocked = λ i. refl;
          sized = λ i. ap (λ g. F.size (g i)) k.1 ∙ s.sized i;
        };
        word_size = s.word_size;
        int_size = s.int_size;
        int_events = subst (λ z. z < 2 ^ 63) (sym k.0.max_event) s.int_events;
        meta_file =
            subst (λ z. meta_size ≤ z) (sym (ap (λ m. F.size m.meta_file) k.0.meta ∙ back.2))
              s.meta_file;
        laid =
            subst
              (λ g.
                Laid F size capacity g (get_reading_offset F u.meta) ms
                  (get_writing_offset F u.meta))
              (sym k.1)
              (subst
                (λ (r : Place). Laid F size capacity q.files r ms (get_writing_offset F u.meta))
                (sym read)
                (subst
                  (λ (w : Place). Laid F size capacity q.files (get_committed_offset F md) ms w)
                  (sym write) s.laid));
        reading_inside = subst (λ (r : Place). r.1 < size) (sym read) s.committed_inside;
        writing_inside = subst (λ (w : Place). w.1 < size) (sym write) s.watermark_inside;
        near =
            subst (λ (w : Place). w.0 < (get_reading_offset F u.meta).0 + capacity) (sym write)
              (subst (λ (r : Place). (get_watermark_offset F md).0 < r.0 + capacity) (sym read)
                s.near);
        int_segments = subst (λ (w : Place). w.0 < 2 ^ 63) (sym write) s.int_segments;
        sizes = subst (λ z. Fit z ms) (sym k.0.max_event) s.sizes;
      }
        where
          back :
              (get_reading_offset F (restore_offsets F md) ≡ get_committed_offset F md)
              × (get_writing_offset F (restore_offsets F md) ≡ get_watermark_offset F md)
              × (F.size (restore_offsets F md).meta_file ≡ F.size md.meta_file)
          back = restored q.files q.max_event_size md ms s

          read : get_reading_offset F u.meta ≡ get_committed_offset F md
          read = ap (get_reading_offset F) k.0.meta ∙ back.0

          write : get_writing_offset F u.meta ≡ get_watermark_offset F md
          write = ap (get_writing_offset F) k.0.meta ∙ back.1
