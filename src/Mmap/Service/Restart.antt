-- ===== src/Mmap/Service/Restart.antt =====
-- doFlush, then a new process and Initialize: everything that was not acknowledged comes again.
use skywalking_satellite.Base.{
  ℕ, ◌+◌, ◌^◌, ◌≤◌, ◌<◌, ◌≡◌, refl, sym, subst, ap, ap₂, ◌∙◌, ◌⊎◌, inl, inr, true, false, not, ◌&&◌,
  some, List, ◌++◌, ◌==◌, arith, if◌then◌else◌,
}
use skywalking_satellite.Base.Int.{pos}
use skywalking_satellite.Mmap.File.{MmapFile, System}
use skywalking_satellite.Mmap.Meta
use skywalking_satellite.Mmap.Meta.{
  Metadata, meta_size, meta_version, get_reading_offset, get_writing_offset, get_watermark_offset,
  get_committed_offset, get_version, get_capacity, put_version, put_capacity, new_metadata,
  MetaResult, int64_to_uint64,
}
use skywalking_satellite.Mmap.Meta.Laws.{Slot, get, watermark, committed, get-outside}
use skywalking_satellite.Mmap.Outcome.{Ensures, Ensures-after, ◌>>◌}
use skywalking_satellite.Mmap.State.{Queue}
use skywalking_satellite.Mmap.Access.{Fits}
use skywalking_satellite.Mmap.Position.{Place}
use skywalking_satellite.Mmap.Layout.{Laid, Laid-append}
use skywalking_satellite.Mmap.Fifo.{Holds, Fit}
use skywalking_satellite.Mmap.Service.{
  adjust_segment_size, adjust_max_in_mem, initialize, start_with, do_flush,
}
use skywalking_satellite.Mmap.Service.Flush.{Recorded, do_flush-Ensures}
use skywalking_satellite.Mmap.Service.Start.{Saved, start-Ensures}

module _ (F : MmapFile) where
  open F use {File}

  -- the metadata that NewMetaData answers for a file of this version and capacity
  abbrev fresh_metadata : File → ℕ → Metadata File
  fresh_metadata file capacity =
      put_capacity F
        (put_version F (record { meta_file = file; capacity = capacity }) (pos meta_version))
        (pos capacity)

  new_metadata-accepts :
      (file : File) (capacity : ℕ)
      → get_version F (record { meta_file = file; capacity = capacity }) ≡ meta_version
      → get_capacity F (record { meta_file = file; capacity = capacity }) ≡ capacity
      → new_metadata F (some file) capacity ≡ Meta.ok (fresh_metadata file capacity)
  unfolding new_metadata
  new_metadata-accepts file capacity v c =
      let known : not (version == 0) && not (version == meta_version) ≡ false = ground (arith, v) in
      let fits : not (bound == 0) && not (bound == capacity) ≡ false = ground (arith, c) in
      ap₂
        (λ a b.
          if a
          then Meta.err (Meta.version_mismatch version)
          else (if b
              then Meta.err (Meta.capacity_mismatch bound)
              else Meta.ok (fresh_metadata file capacity)))
        known fits
    where
      version : ℕ
      version = get_version F (record { meta_file = file; capacity = capacity })

      bound : ℕ
      bound = get_capacity F (record { meta_file = file; capacity = capacity })

  fresh_metadata-get :
      (s : Slot) (file : File) (capacity : ℕ)
      → get F s (fresh_metadata file capacity)
        ≡ get F s (record { meta_file = file; capacity = capacity })
  unfolding put_version put_capacity
  fresh_metadata-get s file capacity =
      get-outside F s _ _ 72 (inr refl) ∙ get-outside F s _ _ 0 (inl refl)

  fresh_metadata-size :
      (file : File) (capacity : ℕ) → F.size (fresh_metadata file capacity).meta_file ≡ F.size file
  unfolding put_version put_capacity
  fresh_metadata-size file capacity = F.word_size _ _ 72 ∙ F.word_size _ _ 0

module _ (F : MmapFile) (os : System) (fuel size capacity : ℕ) where
  open F use {File}

  -- The queue of a new process, on the files that the old one left.
  abbrev pub reboot : Queue File → Queue File
  reboot q = record q {
    mapped = λ _. false;
    mmap_count = 0;
    unflushed_num = 0;
    used_size = pos 0;
    ready = false;
  }

  initialize-Ensures :
      (Fail : Type 0) (page : ℕ) (q : Queue File) (file : File) (ms : List (List ℕ))
      → get_version F (record { meta_file = file; capacity = capacity }) ≡ meta_version
      → get_capacity F (record { meta_file = file; capacity = capacity }) ≡ capacity
      → q.queue_capacity_segments ≡ capacity
      → adjust_segment_size page q.segment_size ≡ size
      → Saved F os fuel size capacity q.files q.max_event_size (fresh_metadata F file capacity) ms
      → q.mmap_count ≡ 0
      → Fail ⊎ ((i : ℕ) → os.opens i ≡ true)
      → Ensures Fail
          (λ _ t. Holds F size capacity t ms × (t.ready ≡ true) × (t.used_size ≡ q.used_size))
          (initialize F os fuel page (some file) q).0
          (initialize F os fuel page (some file) q).1
  unfolding initialize start_with adjust_max_in_mem
  initialize-Ensures Fail page q file ms v c ring seg s zero_mapped opens =
      let accepted : new_metadata F (some file) q.queue_capacity_segments
          ≡ Meta.ok (fresh_metadata F file capacity) =
        ap (new_metadata F (some file)) ring ∙ new_metadata-accepts F file capacity v c in
      subst
        (λ a.
          Ensures Fail
            (λ _ t. Holds F size capacity t ms × (t.ready ≡ true) × (t.used_size ≡ q.used_size))
            (start_with F os fuel a (adjusted q)).0 (start_with F os fuel a (adjusted q)).1)
        (sym accepted)
        (start-Ensures F os fuel size capacity Fail (fresh_metadata F file capacity) _ ms s seg ring
          (room opens))
    where
      adjusted : Queue File → Queue File
      adjusted q = record q {
        segment_size = adjust_segment_size page q.segment_size;
        max_in_mem_segments = adjust_max_in_mem q.max_in_mem_segments;
      }

      room : Fail ⊎ ((i : ℕ) → os.opens i ≡ true) → Fits F os Fail (adjusted q) 2
      room (inl f) = inl f
      room (inr o) = inr (o, ground (arith, zero_mapped))

  flushed-Saved :
      (q t : Queue File) (unacked ms : List (List ℕ))
      → Holds F size capacity q ms
      → Laid F size capacity q.files
          (get_committed_offset F q.meta)
          unacked
          (get_reading_offset F q.meta)
      → Fit q.max_event_size (unacked ++ ms)
      → (get_committed_offset F q.meta).1 < size
      → (get_writing_offset F q.meta).0 < (get_committed_offset F q.meta).0 + capacity
      → Recorded F size capacity watermark (get_writing_offset F q.meta) q t
      → Saved F os fuel size capacity t.files t.max_event_size
          (fresh_metadata F t.meta.meta_file capacity)
          (unacked ++ ms)
  unfolding get_watermark_offset get_committed_offset
  flushed-Saved q t unacked ms h laid fit inside near r = record {
    sized = λ i. ap (λ g. F.size (g i)) r.alike.files ∙ h.ready.sized i;
    word_size = h.word_size;
    int_size = h.int_size;
    int_events = subst (λ z. z < 2 ^ 63) (sym r.alike.max_event) h.int_events;
    meta_file =
        subst (λ z. meta_size ≤ z)
          (sym (fresh_metadata-size F t.meta.meta_file capacity ∙ r.alike.meta_size)) h.meta_file;
    laid =
        subst
          (λ g.
            Laid F size capacity g (get_committed_offset F md) (unacked ++ ms)
              (get_watermark_offset F md))
          (sym r.alike.files)
          (subst
            (λ (c : Place).
              Laid F size capacity q.files c (unacked ++ ms) (get_watermark_offset F md))
            (sym from)
            (subst
              (λ (w : Place).
                Laid F size capacity q.files (get_committed_offset F q.meta) (unacked ++ ms) w)
              (sym to)
              (Laid-append F size capacity q.files (get_committed_offset F q.meta) unacked ms
                (get_reading_offset F q.meta) (get_writing_offset F q.meta) laid h.laid)));
    committed_inside = subst (λ (c : Place). c.1 < size) (sym from) inside;
    watermark_inside = subst (λ (w : Place). w.1 < size) (sym to) h.writing_inside;
    near =
        subst (λ (w : Place). w.0 < (get_committed_offset F md).0 + capacity) (sym to)
          (subst (λ (c : Place). (get_writing_offset F q.meta).0 < c.0 + capacity) (sym from) near);
    int_segments = subst (λ (w : Place). w.0 < 2 ^ 63) (sym to) h.int_segments;
    sizes = subst (λ z. Fit z (unacked ++ ms)) (sym r.alike.max_event) fit;
  }
    where
      md : Metadata File
      md = fresh_metadata F t.meta.meta_file capacity

      from : get_committed_offset F md ≡ get_committed_offset F q.meta
      from = fresh_metadata-get F committed t.meta.meta_file capacity ∙ r.others committed refl

      to : get_watermark_offset F md ≡ get_writing_offset F q.meta
      to = fresh_metadata-get F watermark t.meta.meta_file capacity ∙ r.recorded

  -- A flush, a new process and Initialize on the files that are left: the queue is ready and holds
  -- the messages that were handed out and not committed, followed by those that were not handed
  -- out, in order, with the used size at zero. The unacknowledged messages are still in their
  -- segments and of an allowed size, what was written since the committed offset is less than the
  -- capacity, the files have this version and capacity, and the segment size is one that Initialize
  -- keeps. The start returns when every file opens; without that the statement is about a start
  -- that returns.
  pub restart-Ensures :
      (Fail : Type 0) (page : ℕ) (q : Queue File) (unacked ms : List (List ℕ))
      → Holds F size capacity q ms
      → Laid F size capacity q.files
          (get_committed_offset F q.meta)
          unacked
          (get_reading_offset F q.meta)
      → Fit q.max_event_size (unacked ++ ms)
      → (get_committed_offset F q.meta).1 < size
      → (get_writing_offset F q.meta).0 < (get_committed_offset F q.meta).0 + capacity
      → get_version F q.meta ≡ meta_version
      → get_capacity F q.meta ≡ capacity
      → adjust_segment_size page size ≡ size
      → Fail ⊎ ((i : ℕ) → os.opens i ≡ true)
      → Ensures Fail
          (λ _ t.
            Holds F size capacity t (unacked ++ ms) × (t.ready ≡ true) × (t.used_size ≡ pos 0))
          (((do_flush F) >> λ t. initialize F os fuel page (some t.meta.meta_file) (reboot t)) q).0
          (((do_flush F) >> λ t. initialize F os fuel page (some t.meta.meta_file) (reboot t)) q).1
  unfolding get_version get_capacity
  restart-Ensures Fail page q unacked ms h laid fit inside near version bound seg opens =
      Ensures-after _ _ (do_flush-Ensures F size capacity Fail q ms h) λ _ t p.
        initialize-Ensures Fail page (reboot t) t.meta.meta_file (unacked ++ ms)
          (p.0.version ∙ version) (p.0.bound ∙ bound) (p.1.ready.ring)
          (ap (adjust_segment_size page) p.1.ready.segment ∙ seg)
          (flushed-Saved q t unacked ms h laid fit inside near p.0) refl opens
