-- ===== src/Mmap/Fifo/Alike.antt =====
-- Two queues with the same segments and offsets hold the same messages.
use skywalking_satellite.Base.{ℕ, ◌+◌, ◌≤◌, ◌<◌, ◌^◌, ◌≡◌, sym, subst, ap, ◌∙◌, List}
use skywalking_satellite.Mmap.File.{MmapFile}
use skywalking_satellite.Mmap.Meta.{get_reading_offset, get_writing_offset}
use skywalking_satellite.Mmap.State.{Queue}
use skywalking_satellite.Mmap.Kept.{Kept}
use skywalking_satellite.Mmap.Position.{Place}
use skywalking_satellite.Mmap.Layout.{Laid}
use skywalking_satellite.Mmap.Fifo.{Holds, Fit}

module _ (F : MmapFile) where
  open F use {File}

  pub record Alike (q t : Queue File) : Type 0 where
    pub segment_size : t.segment_size ≡ q.segment_size
    pub capacity : t.queue_capacity_segments ≡ q.queue_capacity_segments
    pub max_event : t.max_event_size ≡ q.max_event_size
    pub locker : (i : ℕ) → t.locker i ≡ q.locker i
    pub files : t.files ≡ q.files
    pub meta_size : F.size t.meta.meta_file ≡ F.size q.meta.meta_file
    pub reading : get_reading_offset F t.meta ≡ get_reading_offset F q.meta
    pub writing : get_writing_offset F t.meta ≡ get_writing_offset F q.meta

  pub Alike-trans : {q t u : Queue File} → Alike q t → Alike t u → Alike q u
  Alike-trans h k = record {
    segment_size = k.segment_size ∙ h.segment_size;
    capacity = k.capacity ∙ h.capacity;
    max_event = k.max_event ∙ h.max_event;
    locker = λ i. k.locker i ∙ h.locker i;
    files = k.files ∙ h.files;
    meta_size = k.meta_size ∙ h.meta_size;
    reading = k.reading ∙ h.reading;
    writing = k.writing ∙ h.writing;
  }

  pub Alike-Kept : {q t : Queue File} → Kept q t → t.files ≡ q.files → Alike q t
  Alike-Kept k f = record {
    segment_size = k.segment_size;
    capacity = k.capacity;
    max_event = k.max_event;
    locker = k.locker;
    files = f;
    meta_size = ap (λ m. F.size m.meta_file) k.meta;
    reading = ap (get_reading_offset F) k.meta;
    writing = ap (get_writing_offset F) k.meta;
  }

  pub Holds-Alike :
      (size capacity : ℕ) (q t : Queue File) (ms : List (List ℕ))
      → Alike q t
      → Holds F size capacity q ms
      → Holds F size capacity t ms
  Holds-Alike size capacity q t ms a h = record {
    ready = record {
      segment = a.segment_size ∙ h.ready.segment;
      ring = a.capacity ∙ h.ready.ring;
      unlocked = λ i. a.locker i ∙ h.ready.unlocked i;
      sized = λ i. ap (λ g. F.size (g i)) a.files ∙ h.ready.sized i;
    };
    word_size = h.word_size;
    int_size = h.int_size;
    int_events = subst (λ z. z < 2 ^ 63) (sym a.max_event) h.int_events;
    meta_file = subst (λ z. 80 ≤ z) (sym a.meta_size) h.meta_file;
    laid =
        subst
          (λ g.
            Laid F size capacity g (get_reading_offset F t.meta) ms (get_writing_offset F t.meta))
          (sym a.files)
          (subst (λ (r : Place). Laid F size capacity q.files r ms (get_writing_offset F t.meta))
            (sym a.reading)
            (subst (λ (w : Place). Laid F size capacity q.files (get_reading_offset F q.meta) ms w)
              (sym a.writing) h.laid));
    reading_inside = subst (λ (r : Place). r.1 < size) (sym a.reading) h.reading_inside;
    writing_inside = subst (λ (w : Place). w.1 < size) (sym a.writing) h.writing_inside;
    near =
        subst (λ (w : Place). w.0 < (get_reading_offset F t.meta).0 + capacity) (sym a.writing)
          (subst (λ (r : Place). (get_writing_offset F q.meta).0 < r.0 + capacity) (sym a.reading)
            h.near);
    int_segments = subst (λ (w : Place). w.0 < 2 ^ 63) (sym a.writing) h.int_segments;
    sizes = subst (λ z. Fit z ms) (sym a.max_event) h.sizes;
  }
