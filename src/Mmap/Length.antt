-- ===== src/Mmap/Length.antt =====
-- writeLength and readLength: the word in front of a message.
use skywalking_satellite.Base.{ℕ, suc, ◌+◌, ◌≡◌, refl, ap}
use skywalking_satellite.Mmap.File.{MmapFile, System}
use skywalking_satellite.Mmap.Meta.{uint64_to_int}
use skywalking_satellite.Mmap.Outcome.{ok, Ensures, holds, Ensures-after}
use skywalking_satellite.Mmap.State.{Queue, get_index}
use skywalking_satellite.Mmap.Access.{Fits, with_segment-Ensures}
use skywalking_satellite.Mmap.Kept.{Kept}
use skywalking_satellite.Mmap.Operation.{
  uint64_size, skip_tail, carry, int_to_uint64, write_length, read_length,
}
use skywalking_satellite.Mmap.Position.{Place, body}
use skywalking_satellite.Mmap.Layout.{word}
use skywalking_satellite.Mmap.Bytes.{word_written}
use skywalking_satellite.Mmap.Write.{Ready}

module _ (F : MmapFile) (os : System) (fuel size capacity : ℕ) where
  open F use {File, read_uint64_at, write_uint64_at}

  abbrev Lengthened : Type 0 → ℕ → ℕ → Place → Queue File → Place → Queue File → Type 0
  Lengthened Fail k len from q out t =
      (out ≡ body size from)
      × (t.files
          ≡ word_written F size capacity q.files (skip_tail size from).0 (skip_tail size from).1
              len)
      × Kept q t
      × Fits F os Fail t k

  -- The length is written behind the cursor, in the next segment if it does not fit.
  pub write_length-Ensures :
      (Fail : Type 0) (k len id offset : ℕ) (q : Queue File)
      → Ready F size capacity q
      → Fits F os Fail q (suc k)
      → Ensures Fail
          (Lengthened Fail k len (id, offset) q)
          (write_length F os fuel len id offset q).0
          (write_length F os fuel len id offset q).1
  unfolding write_length int_to_uint64
  write_length-Ensures Fail k len id offset q r room =
      Ensures-after _ _
        (with_segment-Ensures F os Fail fuel (at q.segment_size).0 k q _
          (λ _ fs. fs ≡ word_written F size capacity q.files (at size).0 (at size).1 len)
          (r.unlocked (get_index q (at q.segment_size).0)) room
          λ t e. (
            tt,
            word_written F size capacity q.files (at size).0 (at size).1 len,
            λ i. (
              ok tt,
              record t {
                files =
                    word_written F size (r.ring i) (e i) (at (r.segment i)).0 (at (r.segment i)).1
                      len;
              },
            ),
            refl,
          ))
        λ _ t p.
          holds (ap (λ z. carry z ((at z).0, (at z).1 + uint64_size)) r.segment, p.0, p.1, p.2)
    where
      at : ℕ → Place
      at z = skip_tail z (id, offset)

  -- The length that lies behind the cursor is read, and nothing is changed.
  pub read_length-Ensures :
      (Fail : Type 0) (k id offset : ℕ) (q : Queue File)
      → Ready F size capacity q
      → Fits F os Fail q (suc k)
      → Ensures Fail
          (λ out t.
            (out ≡ (
              (body size (id, offset)).0,
              (body size (id, offset)).1,
              uint64_to_int (word F size capacity q.files (skip_tail size (id, offset))),
            ))
            × (t.files ≡ q.files)
            × Kept q t
            × Fits F os Fail t k)
          (read_length F os fuel id offset q).0
          (read_length F os fuel id offset q).1
  unfolding read_length
  read_length-Ensures Fail k id offset q r room =
      Ensures-after _ _
        (with_segment-Ensures F os Fail fuel (at q.segment_size).0 k q _
          (λ num fs. (num ≡ word F size capacity q.files (at size)) × (fs ≡ q.files))
          (r.unlocked (get_index q (at q.segment_size).0)) room
          λ t e. (
            word F size capacity q.files (at size),
            q.files,
            λ i. (ok (word F size (r.ring i) (e i) (at (r.segment i))), record t { files = e i }),
            (refl, refl),
          ))
        λ num t p. holds (
          (λ i. (
            (carry (r.segment i) ((at (r.segment i)).0, (at (r.segment i)).1 + uint64_size)).0,
            (carry (r.segment i) ((at (r.segment i)).0, (at (r.segment i)).1 + uint64_size)).1,
            uint64_to_int (p.0.0 i),
          )),
          p.0.1,
          p.1,
          p.2,
        )
    where
      at : ℕ → Place
      at z = skip_tail z (id, offset)
