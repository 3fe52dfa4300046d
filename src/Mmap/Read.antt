-- ===== src/Mmap/Read.antt =====
-- readBytes: the bytes that were stored from the cursor on come back, and nothing is changed.
use skywalking_satellite.Base.{
  ℕ, zero, suc, ◌+◌, ◌-◌, ◌%◌, ◌≤◌, ◌<◌, min, ◌≡◌, refl, sym, subst, ap, ap₂, ◌∙◌, List, [], ◌∷◌,
  ◌++◌, length, length-drop, take, drop, get_or, take-append-drop, take-length, append_assoc, arith,
  ◌==◌, ==_iff, Bool-cases, inl, inr, some,
}
use skywalking_satellite.Mmap.File.{MmapFile, System}
use skywalking_satellite.Mmap.Outcome.{Outcome, ok, Ensures, holds, Ensures-after, Ensures-weaken}
use skywalking_satellite.Mmap.State.{Queue, get_index}
use skywalking_satellite.Mmap.Access.{Fits, with_segment-Ensures}
use skywalking_satellite.Mmap.Kept.{Kept, Kept-trans}
use skywalking_satellite.Mmap.Operation.{carry, read_segment, try, rethrow, read_chunk, read_loop}
use skywalking_satellite.Mmap.Position.{
  Place, next, walk, walk-AtMost, walk_chunk, chunk_end, walk_split,
}
use skywalking_satellite.Mmap.Layout.{Stored}
use skywalking_satellite.Mmap.Write.{Ready, Ready-Kept}

module _ (F : MmapFile) (size capacity : ℕ) where
  open F use {File, byte}

  Stored-take :
      (files : ℕ → File) (id offset : ℕ) (bs m : List ℕ)
      → Stored F size capacity files (id, offset) m
      → length bs ≤ length m
      → offset + length bs ≤ size
      → ((k : ℕ) → k < length bs → get_or bs k 0 ≡ byte (files (id % capacity)) (offset + k))
      → bs ≡ take (length bs) m
  Stored-take files id offset [] m s h fits e = refl
  Stored-take files id offset (b ∷ bs) [] s h fits e = absurd (omega arith)
  Stored-take files id offset (b ∷ []) (x ∷ m) s h fits e =
      ap (λ t. t ∷ []) (e 0 (omega arith) ∙ ap (byte (files (id % capacity))) (omega arith) ∙ s.0)
  Stored-take files id offset (b ∷ c ∷ bs) (x ∷ m) s h fits e =
      let here : next size (id, offset) ≡ (id, offset + 1) = ground arith in
      ap₂ ◌∷◌ (e 0 (omega arith) ∙ ap (byte (files (id % capacity))) (omega arith) ∙ s.0) (
        Stored-take files id (offset + 1) (c ∷ bs) m
          (subst (λ p. Stored F size capacity files p m) here s.1) (omega arith) (omega arith)
          λ k hk. e (suc k) (omega arith) ∙ ap (byte (files (id % capacity))) (omega arith))

  Stored-drop :
      (files : ℕ → File) (p : Place) (n : ℕ) (m : List ℕ)
      → Stored F size capacity files p m
      → n ≤ length m
      → Stored F size capacity files (walk size n p) (drop n m)
  Stored-drop files p zero m s h = s
  Stored-drop files p (suc n) [] s h = absurd (omega arith)
  Stored-drop files p (suc n) (x ∷ m) s h = Stored-drop files (next size p) n m s.1 (omega arith)

module _ (F : MmapFile) (os : System) (fuel size capacity : ℕ) where
  open F use {File, byte, read_at}

  -- the bytes that one round reads
  record Chunk (files : ℕ → File) (id offset n : ℕ) (bs : List ℕ) : Type 0 where
    count : length bs ≡ min n (size - offset)
    bytes : (k : ℕ) → k < length bs → get_or bs k 0 ≡ byte (files (id % capacity)) (offset + k)

  read_segment_ok :
      (files : ℕ → File) (i id offset n : ℕ) (t : Queue File)
      → t.files ≡ files
      → i ≡ id % capacity
      → F.size (files (id % capacity)) ≡ size
      → offset < size
      → (bs : List ℕ) × (read_segment F i n offset t ≡ (ok bs, record t { files = files }))
        × Chunk files id offset n bs
  unfolding read_segment
  read_segment_ok files i id offset n t e c s h =
      let (bs, got, count, same) = F.read_at_bytes (files (id % capacity)) n offset (omega arith) in
      let here : read_at (t.files i) n offset ≡ some bs =
        ap₂ (λ f j. read_at (f j) n offset) e c ∙ got in
      (
        bs,
        rw (here, read_segment) (λ j. (ok bs, record t { files = e j })),
        record { count = count ∙ ap (λ z. min n (z - offset)) s; bytes = same },
      )

  read_chunk-Ensures :
      (Fail : Type 0) (k n id offset : ℕ) (q : Queue File)
      → Ready F size capacity q
      → offset < size
      → Fits F os Fail q (suc k)
      → Ensures Fail
          (λ bs t.
            Chunk q.files id offset n bs × (t.files ≡ q.files) × Kept q t × Fits F os Fail t k)
          (read_chunk F os fuel n id offset q).0
          (read_chunk F os fuel n id offset q).1
  unfolding read_chunk try rethrow
  read_chunk-Ensures Fail k n id offset q r h room =
      Ensures-after _ _
        (with_segment-Ensures F os Fail fuel id k q _
          (λ o fs. (bs : List ℕ) × (o ≡ ok bs) × Chunk q.files id offset n bs × (fs ≡ q.files))
          (r.unlocked (get_index q id)) room
          λ t e.
            let (bs, got, c) =
              read_segment_ok q.files (get_index q id) id offset n t e (ap (λ z. id % z) r.ring)
                (r.sized (id % capacity)) h in
            (ok bs, q.files, ap (λ x. (ok x.0, x.1)) got, (bs, refl, c, refl)))
        λ o t p.
          let (bs, same, c, f) = p.0 in
          subst
            (λ (x : Outcome (List ℕ)).
              Ensures Fail
                (λ bs t.
                  Chunk q.files id offset n bs
                  × (t.files ≡ q.files)
                  × Kept q t
                  × Fits F os Fail t k)
                x t)
            (sym same) (holds (c, f, p.1, p.2))

  -- What reading `m` from a place on leaves behind.
  pub record WasRead (q : Queue File) (all m : List ℕ) (from : Place) (out : List ℕ × ℕ × ℕ)
      (t : Queue File) : Type 0 where
    pub result : out.0 ≡ all
    pub cursor : (out.1, out.2) ≡ walk size (length m) from
    pub files : t.files ≡ q.files
    pub kept : Kept q t

  pub read_loop-Ensures :
      (Fail : Type 0) (rounds : ℕ) (acc m : List ℕ) (left id offset : ℕ) (q : Queue File)
      → Ready F size capacity q
      → Stored F size capacity q.files (id, offset) m
      → left ≡ length m
      → offset < size
      → left < rounds
      → Fits F os Fail q (suc ((walk size (length m) (id, offset)).0 - id))
      → Ensures Fail
          (WasRead q (acc ++ m) m (id, offset))
          (read_loop F os fuel rounds acc left id offset q).0
          (read_loop F os fuel rounds acc left id offset q).1
  unfolding read_loop
  read_loop-Ensures Fail zero acc m left id offset q r s e h more room = elim more [ ]
  read_loop-Ensures Fail (suc rounds) acc m left id offset q r s e h more room =
      Ensures-after _ _
        (read_chunk-Ensures Fail ((walk size (length m) (id, offset)).0 - id) left id offset q r h
          room)
        λ bs t p.
          let ready : Ready F size capacity t =
            Ready-Kept F os fuel size capacity r p.2
              (λ i. ap (λ g. F.size (g i)) p.1 ∙ r.sized i) in
          let fits : length bs ≤ length m = omega (arith, p.0.count) in
          let same : bs ≡ take (length bs) m =
            Stored-take F size capacity q.files id offset bs m s fits (omega (arith, p.0.count))
              p.0.bytes in
          elim (Bool-cases (length bs == left)) [
            | inl done ↦
                let whole : length bs ≡ length m = (==_iff (length bs) left).0 done ∙ e in
                rw done (
                  holds (record {
                    result = ap (λ x. acc ++ x) (same ∙ ap (λ n. take n m) whole ∙ take-length m);
                    cursor =
                        ap₂ (λ z n. carry z (id, offset + n)) ready.segment whole
                        ∙ sym (walk_chunk size (length m) id offset h (omega (arith, p.0.count)));
                    files = p.1;
                    kept = p.2;
                  }))
            | inr on ↦
                let less : length bs < length m = ground (arith, p.0.count) in
                let to_end : offset + length bs ≡ size = ground (arith, p.0.count) in
                let split = walk_split size m id offset (length bs) h less to_end in
                let turn : carry t.segment_size (id, offset + length bs) ≡ (id + 1, 0) =
                  ap (λ z. carry z (id, offset + length bs)) ready.segment
                  ∙ ground (arith, to_end) in
                let steps : (walk size (length m) (id, offset)).0 - id
                    ≡ suc ((walk size (length (drop (length bs) m)) (id + 1, 0)).0 - (id + 1)) =
                  omega (
                    arith,
                    ap (λ x. x.0) split,
                    walk-AtMost size (length (drop (length bs) m)) (id + 1, 0),
                  ) in
                let later : Stored F size capacity t.files (id + 1, 0) (drop (length bs) m) =
                  subst (λ g. Stored F size capacity g (id + 1, 0) (drop (length bs) m)) (sym p.1)
                    (subst (λ z. Stored F size capacity q.files z (drop (length bs) m))
                      (chunk_end size id offset (length bs) h to_end)
                      (Stored-drop F size capacity q.files (id, offset) (length bs) m s fits)) in
                rw on (
                  subst
                    (λ (x : Place).
                      Ensures Fail (WasRead q (acc ++ m) m (id, offset))
                        (read_loop F os fuel rounds (acc ++ bs) (left - length bs) x.0 x.1 t).0
                        (read_loop F os fuel rounds (acc ++ bs) (left - length bs) x.0 x.1 t).1)
                    (sym turn)
                    (Ensures-weaken
                      (read_loop-Ensures Fail rounds (acc ++ bs) (drop (length bs) m)
                        (left - length bs) (id + 1) 0 t ready later
                        (omega (arith, length-drop (length bs) m)) (omega arith)
                        (omega (arith, p.0.count)) (subst (Fits F os Fail t) steps p.3))
                      λ out u w. record {
                        result =
                            w.result
                            ∙ append_assoc acc bs (drop (length bs) m)
                            ∙ ap (λ x. acc ++ x)
                                (ap (λ x. x ++ drop (length bs) m) same
                                  ∙ take-append-drop (length bs) m);
                        cursor = w.cursor ∙ sym split;
                        files = w.files ∙ p.1;
                        kept = Kept-trans p.2 w.kept;
                      }))
          ]
