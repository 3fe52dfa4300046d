-- ===== src/Mmap/Kept.antt =====
-- What two states of a queue have in common when they differ in what is mapped only.
use skywalking_satellite.Base.{ℕ, ◌≡◌, refl, ◌∙◌, Bool}
use skywalking_satellite.Mmap.State.{Queue}

-- `t` differs from `q` at most in its segment files and in which of them are mapped.
pub record Kept {File : Type 0} (q t : Queue File) : Type 0 where
  pub segment_size : t.segment_size ≡ q.segment_size
  pub max_in_mem : t.max_in_mem_segments ≡ q.max_in_mem_segments
  pub capacity : t.queue_capacity_segments ≡ q.queue_capacity_segments
  pub ceiling : t.flush_ceiling_num ≡ q.flush_ceiling_num
  pub max_event : t.max_event_size ≡ q.max_event_size
  pub meta : t.meta ≡ q.meta
  pub unflushed : t.unflushed_num ≡ q.unflushed_num
  pub signals : t.flush_signals ≡ q.flush_signals
  pub mark_read : t.mark_read ≡ q.mark_read
  pub ready : t.ready ≡ q.ready
  pub locker : (i : ℕ) → t.locker i ≡ q.locker i
  pub used : t.used_size ≡ q.used_size

-- The same, with the files and the locks as they were.
abbrev pub Quiet : {File : Type 0} → Queue File → Queue File → Type 0
Quiet q t = Kept q t × (t.files ≡ q.files) × (t.locker ≡ q.locker)

module _ {File : Type 0} where
  pub Kept-refl : (q : Queue File) → Kept q q
  Kept-refl q = record {
    segment_size = refl;
    max_in_mem = refl;
    capacity = refl;
    ceiling = refl;
    max_event = refl;
    meta = refl;
    unflushed = refl;
    signals = refl;
    mark_read = refl;
    ready = refl;
    locker = λ i. refl;
    used = refl;
  }

  pub Kept-trans : {q t u : Queue File} → Kept q t → Kept t u → Kept q u
  Kept-trans h k = record {
    segment_size = k.segment_size ∙ h.segment_size;
    max_in_mem = k.max_in_mem ∙ h.max_in_mem;
    capacity = k.capacity ∙ h.capacity;
    ceiling = k.ceiling ∙ h.ceiling;
    max_event = k.max_event ∙ h.max_event;
    meta = k.meta ∙ h.meta;
    unflushed = k.unflushed ∙ h.unflushed;
    signals = k.signals ∙ h.signals;
    mark_read = k.mark_read ∙ h.mark_read;
    ready = k.ready ∙ h.ready;
    locker = λ i. k.locker i ∙ h.locker i;
    used = k.used ∙ h.used;
  }

  -- Whatever stands in the buffer of marks does not count.
  pub Kept-unmarked : {q t : Queue File} → Kept q t → Kept q (record t { mark_read = q.mark_read })
  Kept-unmarked k = record {
    segment_size = k.segment_size;
    max_in_mem = k.max_in_mem;
    capacity = k.capacity;
    ceiling = k.ceiling;
    max_event = k.max_event;
    meta = k.meta;
    unflushed = k.unflushed;
    signals = k.signals;
    mark_read = refl;
    ready = k.ready;
    locker = k.locker;
    used = k.used;
  }

  pub Quiet-refl : (q : Queue File) → Quiet q q
  Quiet-refl q = (Kept-refl q, refl, refl)

  pub Quiet-trans : {q t u : Queue File} → Quiet q t → Quiet t u → Quiet q u
  Quiet-trans h k = (Kept-trans h.0 k.0, k.1 ∙ h.1, k.2 ∙ h.2)

  -- A record that differs in what is mapped only.
  pub Quiet-mapped :
      (q : Queue File) (n : ℕ) (m : ℕ → Bool) → Quiet q (record q { mmap_count = n; mapped = m })
  Quiet-mapped q n m = (
    record {
      segment_size = refl;
      max_in_mem = refl;
      capacity = refl;
      ceiling = refl;
      max_event = refl;
      meta = refl;
      unflushed = refl;
      signals = refl;
      mark_read = refl;
      ready = refl;
      locker = λ i. refl;
      used = refl;
    },
    refl,
    refl,
  )
