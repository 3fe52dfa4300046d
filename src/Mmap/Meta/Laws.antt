-- ===== src/Mmap/Meta/Laws.antt =====
-- The four offsets, the version and the capacity are kept in words of their own.
use skywalking_satellite.Base.{
  ℕ, ◌+◌, ◌≤◌, ◌<◌, ◌^◌, ◌≡◌, refl, sym, ap₂, ◌∙◌, Bool, true, false, ◌⊎◌, inl, inr, arith,
  if◌then◌else◌,
}
use skywalking_satellite.Mmap.File.{MmapFile}
use skywalking_satellite.Mmap.Meta.{
  Metadata, meta_size, uint64_to_int64, get_version, get_capacity, get_writing_offset,
  put_writing_offset, get_watermark_offset, put_watermark_offset, get_committed_offset,
  put_committed_offset, get_reading_offset, put_reading_offset,
}

-- The pairs of words that hold an offset.
pub data Slot : Type 0 where
  writing watermark committed reading : Slot

abbrev pub same : Slot → Slot → Bool
same writing writing = true
same watermark watermark = true
same committed committed = true
same reading reading = true
same _ _ = false

pub same_refl : (s : Slot) → same s s ≡ true
same_refl writing = refl
same_refl watermark = refl
same_refl committed = refl
same_refl reading = refl

module _ (F : MmapFile) where
  open F use {
    File, size, byte, read_uint64_at, write_uint64_at, word_size, word_read, word_outside,
    word_of_bytes,
  }

  abbrev pub get : Slot → Metadata File → ℕ × ℕ
  get writing = get_writing_offset F
  get watermark = get_watermark_offset F
  get committed = get_committed_offset F
  get reading = get_reading_offset F

  abbrev pub put : Slot → Metadata File → ℕ → ℕ → Metadata File
  put writing = put_writing_offset F
  put watermark = put_watermark_offset F
  put committed = put_committed_offset F
  put reading = put_reading_offset F

  -- A word that a write of another word does not touch.
  pub word_frame :
      (f : File) (v o p : ℕ)
      → (p + 8 ≤ o) ⊎ (o + 8 ≤ p)
      → read_uint64_at (write_uint64_at f v o) p ≡ read_uint64_at f p
  word_frame f v o p h =
      word_of_bytes (write_uint64_at f v o) f p (λ k hk. word_outside f v o (p + k) (side k hk))
    where
      side : (k : ℕ) → k < 8 → (p + k < o) ⊎ (o + 8 ≤ p + k)
      side k hk = omega arith

  -- two words of the file after two writes
  pub two_words :
      (f : File) (v w o p : ℕ)
      → meta_size ≤ size f
      → o + 8 ≤ meta_size
      → p + 8 ≤ meta_size
      → (o + 8 ≤ p)
      → v < 2 ^ 63
      → w < 2 ^ 63
      → (read_uint64_at (write_uint64_at (write_uint64_at f v o) w p) o ≡ v)
        × (read_uint64_at (write_uint64_at (write_uint64_at f v o) w p) p ≡ w)
  two_words f v w o p hs ho hp hop hv hw = (
    rw (word_frame (write_uint64_at f v o) w p o (inl hop))
        (word_read f v o (omega arith) (omega arith)),
    word_read (write_uint64_at f v o) w p (omega (arith, word_size f v o)) (omega arith),
  )

  pub other_words :
      (f : File) (v w o p q : ℕ)
      → (q + 8 ≤ o) ⊎ (o + 8 ≤ q)
      → (q + 8 ≤ p) ⊎ (p + 8 ≤ q)
      → read_uint64_at (write_uint64_at (write_uint64_at f v o) w p) q ≡ read_uint64_at f q
  other_words f v w o p q h k =
      rw (word_frame (write_uint64_at f v o) w p q k) (word_frame f v o q h)

-- The first of the two words of a pair.
abbrev word_pos : Slot → ℕ
word_pos writing = 8
word_pos watermark = 24
word_pos committed = 40
word_pos reading = 56

word_pos_bounds : (s : Slot) → (8 ≤ word_pos s) × (word_pos s + 16 ≤ 72)
word_pos_bounds writing = omega arith
word_pos_bounds watermark = omega arith
word_pos_bounds committed = omega arith
word_pos_bounds reading = omega arith

word_pos_apart :
    (s t : Slot)
    → ((same s t ≡ true) × (word_pos s ≡ word_pos t))
      ⊎ ((same s t ≡ false) × ((word_pos s + 16 ≤ word_pos t) ⊎ (word_pos t + 16 ≤ word_pos s)))
word_pos_apart s t = ground arith

uint64_to_int64_small : (v : ℕ) → v < 2 ^ 63 → uint64_to_int64 v ≡ v
unfolding uint64_to_int64
uint64_to_int64_small v h = ground arith

module _ (F : MmapFile) where
  open F use {File, size, read_uint64_at, write_uint64_at, word_size}

  abbrev words : File → ℕ → ℕ × ℕ
  words f p = (uint64_to_int64 (read_uint64_at f p), uint64_to_int64 (read_uint64_at f (p + 8)))

  get-words : (s : Slot) (m : Metadata File) → get F s m ≡ words m.meta_file (word_pos s)
  unfolding get_writing_offset get_watermark_offset get_committed_offset get_reading_offset
  get-words writing m = refl
  get-words watermark m = refl
  get-words committed m = refl
  get-words reading m = refl

  put-words :
      (s : Slot) (m : Metadata File) (id offset : ℕ)
      → put F s m id offset ≡ record m {
        meta_file =
            write_uint64_at (write_uint64_at m.meta_file id (word_pos s)) offset (word_pos s + 8);
      }
  unfolding put_writing_offset put_watermark_offset put_committed_offset put_reading_offset
  put-words writing m id offset = refl
  put-words watermark m id offset = refl
  put-words committed m id offset = refl
  put-words reading m id offset = refl

  pub put_size :
      (s : Slot) (m : Metadata File) (id offset : ℕ)
      → size (put F s m id offset).meta_file ≡ size m.meta_file
  put_size s m id offset = rw (put-words s m id offset) (
      omega (
        arith,
        word_size (write_uint64_at m.meta_file id (word_pos s)) offset (word_pos s + 8),
        word_size m.meta_file id (word_pos s),
      ))

  words_written :
      (f : File) (p id offset : ℕ)
      → meta_size ≤ size f
      → p + 16 ≤ meta_size
      → id < 2 ^ 63
      → offset < 2 ^ 63
      → words (write_uint64_at (write_uint64_at f id p) offset (p + 8)) p ≡ (id, offset)
  words_written f p id offset hs hp hi ho =
      let (first, second) =
        two_words F f id offset p (p + 8) hs (omega arith) (omega arith) (omega arith) hi ho in
      rw (first, second)
        (ap₂ (λ a b. (a, b)) (uint64_to_int64_small id hi) (uint64_to_int64_small offset ho))

  words_elsewhere :
      (f : File) (p q id offset : ℕ)
      → (p + 16 ≤ q) ⊎ (q + 16 ≤ p)
      → words (write_uint64_at (write_uint64_at f id p) offset (p + 8)) q ≡ words f q
  words_elsewhere f p q id offset h = rw (
    other_words F f id offset p (p + 8) q (omega arith) (omega arith),
    other_words F f id offset p (p + 8) (q + 8) (omega arith) (omega arith),
  )

  -- Whichever of the four offsets is read after whichever was written, the result is what was
  -- written if it is the same, and what it held before if it is not; the file is large enough and
  -- the values are int64.
  pub get-put :
      (s t : Slot) (m : Metadata File) (id offset : ℕ)
      → meta_size ≤ size m.meta_file
      → id < 2 ^ 63
      → offset < 2 ^ 63
      → get F t (put F s m id offset) ≡ (if same s t then (id, offset) else get F t m)
  get-put s t m id offset hs hi ho = elim (word_pos_apart s t) [
    | inl (e, p) ↦
        rw (e, get-words t (put F s m id offset), put-words s m id offset, ← p)
          (words_written m.meta_file (word_pos s) id offset hs (omega (arith, word_pos_bounds s)) hi
            ho)
    | inr (e, p) ↦
        rw (e, get-words t (put F s m id offset), put-words s m id offset, get-words t m)
          (words_elsewhere m.meta_file (word_pos s) (word_pos t) id offset p)
  ]

  -- A write of an offset leaves the version and the capacity.
  pub put_keeps :
      (s : Slot) (m : Metadata File) (id offset : ℕ)
      → (get_version F (put F s m id offset) ≡ get_version F m)
        × (get_capacity F (put F s m id offset) ≡ get_capacity F m)
  unfolding get_version get_capacity
  put_keeps s m id offset =
      let (low, high) = word_pos_bounds s in
      rw
        (
          put-words s m id offset,
          other_words F m.meta_file id offset (word_pos s) (word_pos s + 8) 0 (omega arith)
              (omega arith),
          other_words F m.meta_file id offset (word_pos s) (word_pos s + 8) 72 (omega arith)
              (omega arith),
        )
        (refl, refl)

  -- The words outside the pairs, version and capacity, leave the offsets.
  pub get-outside :
      (s : Slot) (m : Metadata File) (v o : ℕ)
      → (o ≡ 0) ⊎ (o ≡ 72)
      → get F s (record m { meta_file = write_uint64_at m.meta_file v o }) ≡ get F s m
  get-outside s m v o h =
      let (low, high) = word_pos_bounds s in
      get-words s (record m { meta_file = write_uint64_at m.meta_file v o })
      ∙ ap₂ (λ a b. (uint64_to_int64 a, uint64_to_int64 b))
          (word_frame F m.meta_file v o (word_pos s) (omega arith))
          (word_frame F m.meta_file v o (word_pos s + 8) (omega arith))
      ∙ sym (get-words s m)
