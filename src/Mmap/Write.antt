-- ===== src/Mmap/Write.antt =====
-- writeLength and writeBytes: the message is stored as it is laid out, the cursor ends behind it,
-- and everything before the place where writing began is kept.
use skywalking_satellite.Base.{
  ℕ, zero, suc, ◌+◌, ◌-◌, ◌<◌, min, ◌≡◌, refl, sym, subst, ap, ap₂, ◌∙◌, inl, inr, false, List,
  length, length-take, length-drop, take, drop, take-append-drop, take-length, arith, ◌==◌, ==_iff,
  Bool-cases, some,
}
use skywalking_satellite.Mmap.File.{MmapFile, System}
use skywalking_satellite.Mmap.Outcome.{Outcome, ok, Ensures, holds, Ensures-after, Ensures-weaken}
use skywalking_satellite.Mmap.State.{Queue, get_index}
use skywalking_satellite.Mmap.Access.{Fits, with_segment-Ensures}
use skywalking_satellite.Mmap.Kept.{Kept, Kept-trans}
use skywalking_satellite.Mmap.Operation.{
  carry, write_segment, try, rethrow, write_chunk, write_loop, put_file,
}
use skywalking_satellite.Mmap.Position.{
  Place, Before, AtMost, walk, walk-AtMost, walk_chunk, chunk_end, walk_split,
}
use skywalking_satellite.Mmap.Layout.{cell, Stored, Stored-append, Stored-Agree}
use skywalking_satellite.Mmap.Bytes.{Sized, written, written-Sized, written-Stored, written-frame}

-- The shape that every operation works on: the sizes, no lock held, every file of full size.
pub record Ready (F : MmapFile) (size capacity : ℕ) (q : Queue (F.File)) : Type 0 where
  pub segment : q.segment_size ≡ size
  pub ring : q.queue_capacity_segments ≡ capacity
  pub unlocked : (i : ℕ) → q.locker i ≡ false
  pub sized : Sized F size capacity q.files

module _ (F : MmapFile) (os : System) (fuel size capacity : ℕ) where
  open F use {File}

  pub Ready-Kept :
      {q t : Queue File}
      → Ready F size capacity q
      → Kept q t
      → Sized F size capacity t.files
      → Ready F size capacity t
  Ready-Kept r k s = record {
    segment = k.segment_size ∙ r.segment;
    ring = k.capacity ∙ r.ring;
    unlocked = λ i. k.locker i ∙ r.unlocked i;
    sized = s;
  }

  -- What lies before `from`, and shares no file with a segment up to `last`, is kept.
  abbrev pub Frame : (ℕ → File) → (ℕ → File) → Place → ℕ → Type 0
  Frame f g from last =
      (p : Place)
      → Before p from
      → last < p.0 + capacity
      → cell F size capacity g p ≡ cell F size capacity f p

  abbrev chunk_size : List ℕ → ℕ → ℕ
  chunk_size bytes offset = min (length bytes) (size - offset)

  write_segment_ok :
      (i offset : ℕ) (bytes : List ℕ) (t : Queue File)
      → F.size (t.files i) ≡ size
      → offset < size
      → write_segment F i bytes offset t
        ≡ (ok (chunk_size bytes offset), put_file F i (F.write_at (t.files i) bytes offset).1 t)
  unfolding write_segment
  write_segment_ok i offset bytes t e h =
      let count : (F.write_at (t.files i) bytes offset).0 ≡ some (chunk_size bytes offset) =
        F.write_at_count (t.files i) bytes offset (omega arith)
        ∙ ap (λ s. some (min (length bytes) (s - offset))) e in
      rw (count, write_segment)

  write_chunk-Ensures :
      (Fail : Type 0) (k : ℕ) (bytes : List ℕ) (id offset : ℕ) (q : Queue File)
      → Ready F size capacity q
      → offset < size
      → Fits F os Fail q (suc k)
      → Ensures Fail
          (λ n t.
            (n ≡ chunk_size bytes offset)
            × (t.files ≡ written F size capacity q.files id offset bytes)
            × Kept q t
            × Fits F os Fail t k)
          (write_chunk F os fuel bytes id offset q).0
          (write_chunk F os fuel bytes id offset q).1
  unfolding write_chunk write_segment try rethrow
  write_chunk-Ensures Fail k bytes id offset q r h room =
      Ensures-after _ _
        (with_segment-Ensures F os Fail fuel id k q _
          (λ o fs.
            (o ≡ ok (chunk_size bytes offset))
            × (fs ≡ written F size capacity q.files id offset bytes))
          (r.unlocked (get_index q id)) room
          λ t e. (
            ok (chunk_size bytes offset),
            written F size capacity q.files id offset bytes,
            ap (λ x. (ok x.0, x.1))
                  (write_segment_ok (get_index q id) offset bytes t (size_at t e) h)
                ∙ same_files t e,
            (refl, refl),
          ))
        λ o t p.
          subst (λ (x : Outcome ℕ). Ensures Fail (Chunked q) x t) (sym p.0.0)
            (holds (refl, p.0.1, p.1, p.2))
    where
      Chunked : Queue File → ℕ → Queue File → Type 0
      Chunked q n t =
          (n ≡ chunk_size bytes offset)
          × (t.files ≡ written F size capacity q.files id offset bytes)
          × Kept q t
          × Fits F os Fail t k

      size_at : (t : Queue File) → t.files ≡ q.files → F.size (t.files (get_index q id)) ≡ size
      size_at t e = ap (λ f. F.size (f (get_index q id))) e ∙ r.sized (get_index q id)

      same_files :
          (t : Queue File)
          → t.files ≡ q.files
          → ◌≡◌ {A = Outcome (Outcome ℕ) × Queue File}
              (
                ok (ok (chunk_size bytes offset)),
                put_file F
                    (get_index q id)
                    (F.write_at (t.files (get_index q id)) bytes offset).1
                    t,
              )
              (
                ok (ok (chunk_size bytes offset)),
                record t { files = written F size capacity q.files id offset bytes },
              )
      same_files t e = λ i. (
        ok (ok (chunk_size bytes offset)),
        record t { files = written F size (r.ring i) (e i) id offset bytes },
      )

  -- What writing `bytes` from a place on leaves behind.
  pub record Wrote (q : Queue File) (bytes : List ℕ) (from : Place) (out : Place) (t : Queue File)
      : Type 0 where
    pub cursor : out ≡ walk size (length bytes) from
    pub stored : Stored F size capacity t.files from bytes
    pub frame : Frame q.files t.files from out.0
    pub sized : Sized F size capacity t.files
    pub kept : Kept q t

  -- a chunk that ends the message
  last_chunk :
      (bytes : List ℕ) (id offset : ℕ) (q t : Queue File)
      → Ready F size capacity q
      → offset < size
      → length bytes ≡ chunk_size bytes offset
      → t.files ≡ written F size capacity q.files id offset bytes
      → Kept q t
      → Wrote q bytes (id, offset) (carry size (id, offset + length bytes)) t
  last_chunk bytes id offset q t r h e f k = record {
    cursor = sym (walk_chunk size (length bytes) id offset h (omega arith));
    stored =
        subst (λ g. Stored F size capacity g (id, offset) bytes) (sym f)
          (subst
            (Stored F size capacity (written F size capacity q.files id offset bytes) (id, offset))
            (take-length bytes)
            (written-Stored F size capacity q.files id offset (length bytes) bytes r.sized
              (omega arith) (omega arith)));
    frame = λ p before near.
        ap (λ g. cell F size capacity g p) f
        ∙ written-frame F size capacity q.files id offset bytes p before (ground (arith, near));
    sized = λ i.
        ap (λ g. F.size (g i)) f ∙ written-Sized F size capacity q.files id offset bytes r.sized i;
    kept = k;
  }

  -- a chunk up to the end of its segment, and the rest from the next segment on
  full_chunk :
      (bytes : List ℕ) (id offset n : ℕ) (q t : Queue File) (out : Place) (u : Queue File)
      → Ready F size capacity q
      → offset < size
      → n < length bytes
      → offset + n ≡ size
      → (walk size (length bytes) (id, offset)).0 < id + capacity
      → t.files ≡ written F size capacity q.files id offset bytes
      → Kept q t
      → Wrote t (drop n bytes) (id + 1, 0) out u
      → Wrote q bytes (id, offset) out u
  full_chunk bytes id offset n q t out u r h less full near f k w = record {
    cursor = w.cursor ∙ sym split;
    stored = all;
    frame = λ p before close.
        w.frame p (omega arith) close
        ∙ ap (λ g. cell F size capacity g p) f
        ∙ written-frame F size capacity q.files id offset bytes p before (omega (arith, behind));
    sized = w.sized;
    kept = Kept-trans k w.kept;
  }
    where
      split : walk size (length bytes) (id, offset) ≡ walk size (length (drop n bytes)) (id + 1, 0)
      split = walk_split size bytes id offset n h less full

      behind : AtMost (id + 1, 0) out
      behind =
          subst (AtMost (id + 1, 0)) (sym w.cursor)
            (walk-AtMost size (length (drop n bytes)) (id + 1, 0))

      end_of : out.0 < id + capacity
      end_of = subst (λ x. x.0 < id + capacity) (sym (w.cursor ∙ sym split)) near

      first : Stored F size capacity t.files (id, offset) (take n bytes)
      first =
          subst (λ g. Stored F size capacity g (id, offset) (take n bytes)) (sym f)
            (written-Stored F size capacity q.files id offset n bytes r.sized (omega arith)
              (omega arith))

      walk_taken : walk size (length (take n bytes)) (id, offset) ≡ (id + 1, 0)
      walk_taken = ap (λ m. walk size m (id, offset)) taken ∙ chunk_end size id offset n h full
        where
          taken : length (take n bytes) ≡ n
          taken = omega (arith, length-take n bytes)

      kept_first : Stored F size capacity u.files (id, offset) (take n bytes)
      kept_first =
          Stored-Agree F size capacity t.files u.files (id, offset) (take n bytes)
            (λ p at below. w.frame p (subst (Before p) walk_taken below) (omega (arith, end_of)))
            first

      all : Stored F size capacity u.files (id, offset) bytes
      all = subst (Stored F size capacity u.files (id, offset)) (take-append-drop n bytes) (
          Stored-append F size capacity u.files (id, offset) (take n bytes) (drop n bytes)
            kept_first
            (subst (λ p. Stored F size capacity u.files p (drop n bytes)) (sym walk_taken)
              w.stored))

  pub write_loop-Ensures :
      (Fail : Type 0) (rounds : ℕ) (bytes : List ℕ) (id offset : ℕ) (q : Queue File)
      → Ready F size capacity q
      → offset < size
      → length bytes < rounds
      → (walk size (length bytes) (id, offset)).0 < id + capacity
      → Fits F os Fail q (suc ((walk size (length bytes) (id, offset)).0 - id))
      → Ensures Fail
          (Wrote q bytes (id, offset))
          (write_loop F os fuel rounds bytes id offset q).0
          (write_loop F os fuel rounds bytes id offset q).1
  unfolding write_loop
  write_loop-Ensures Fail zero bytes id offset q r h more near room = elim more [ ]
  write_loop-Ensures Fail (suc rounds) bytes id offset q r h more near room =
      Ensures-after _ _
        (write_chunk-Ensures Fail ((walk size (length bytes) (id, offset)).0 - id) bytes id offset q
          r h room)
        λ n t p.
          let ready : Ready F size capacity t = Ready-Kept r p.2 (λ i.
            ap (λ g. F.size (g i)) p.1
            ∙ written-Sized F size capacity q.files id offset bytes r.sized i) in
          elim (Bool-cases (n == length bytes)) [
            | inl done ↦
                let e : n ≡ length bytes = (==_iff n (length bytes)).0 done in
                rw done (
                  holds (
                    subst (λ (z : Place). Wrote q bytes (id, offset) z t)
                      (sym (ap₂ (λ z m. carry z (id, offset + m)) ready.segment e))
                      (last_chunk bytes id offset q t r h (sym e ∙ p.0) p.1 p.2)))
            | inr on ↦
                let less : n < length bytes = ground (arith, p.0) in
                let to_end : offset + n ≡ size = ground (arith, p.0) in
                let split = walk_split size bytes id offset n h less to_end in
                let steps : (walk size (length bytes) (id, offset)).0 - id
                    ≡ suc ((walk size (length (drop n bytes)) (id + 1, 0)).0 - (id + 1)) =
                  omega (
                    arith,
                    ap (λ x. x.0) split,
                    walk-AtMost size (length (drop n bytes)) (id + 1, 0),
                  ) in
                let turn : carry t.segment_size (id, offset + n) ≡ (id + 1, 0) =
                  ap (λ z. carry z (id, offset + n)) ready.segment ∙ ground (arith, to_end) in
                rw on (
                  subst
                    (λ (x : Place).
                      Ensures Fail (Wrote q bytes (id, offset))
                        (write_loop F os fuel rounds (drop n bytes) x.0 x.1 t).0
                        (write_loop F os fuel rounds (drop n bytes) x.0 x.1 t).1)
                    (sym turn)
                    (Ensures-weaken
                      (write_loop-Ensures Fail rounds (drop n bytes) (id + 1) 0 t ready
                        (omega arith) (omega (arith, length-drop n bytes, p.0))
                        (omega (arith, ap (λ x. x.0) split)) (subst (Fits F os Fail t) steps p.3))
                      λ out u w.
                        full_chunk bytes id offset n q t out u r h less to_end near p.1 p.2 w))
          ]
