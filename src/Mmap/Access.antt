-- ===== src/Mmap/Access.antt =====
-- What a segment access leaves alone: getting a segment may map it and swap others out, and
-- touches neither the bytes nor the offsets.
use skywalking_satellite.Base.{
  ℕ, suc, ◌+◌, ◌≤◌, ◌≡◌, refl, sym, subst, ◌∙◌, true, false, ◌⊎◌, inl, inr, arith, leb, ◌%◌, ap,
  update, update_self, Bool-cases,
}
use skywalking_satellite.Mmap.File.{MmapFile, System}
use skywalking_satellite.Mmap.Outcome.{
  M, ok, Ensures, holds, failed, Ensures-after, Ensures-excused,
}
use skywalking_satellite.Mmap.State.{Queue, get_index, unlock}
use skywalking_satellite.Mmap.Segments.{map_segment, ensure_room, get_segment, with_segment}
use skywalking_satellite.Mmap.Kept.{Kept, Quiet, Quiet-refl, Quiet-trans, Kept-trans, Quiet-mapped}
use skywalking_satellite.Mmap.Quiet.{ensure_room-Quiet}

module _ (F : MmapFile) (os : System) where
  open F use {File}

  -- A call that does not return is excused by `Fail`, or it has room for `k` more segments.
  abbrev pub Fits : Type 0 → Queue File → ℕ → Type 0
  Fits Fail q k =
      Fail ⊎ (((i : ℕ) → os.opens i ≡ true) × (q.mmap_count + k ≤ q.max_in_mem_segments))

  pub Fits-le : (Fail : Type 0) (q : Queue File) (a b : ℕ) → b ≤ a → Fits Fail q a → Fits Fail q b
  Fits-le Fail q a b h (inl f) = inl f
  Fits-le Fail q a b h (inr room) = inr (room.0, omega (arith, room.1))

  ensure_room-Ensures :
      (Fail : Type 0) (fuel k : ℕ) (q : Queue File)
      → Fits Fail q (suc k)
      → Ensures Fail
          (λ _ t. Quiet q t × Fits Fail t (suc k))
          (ensure_room F os fuel q).0
          (ensure_room F os fuel q).1
  unfolding ensure_room
  ensure_room-Ensures Fail fuel k q (inl f) =
      Ensures-excused _ (ensure_room F os fuel q).0 (ensure_room F os fuel q).1 f
        (λ _. (ensure_room-Quiet F os fuel q, inl f))
  ensure_room-Ensures Fail fuel k q (inr room) =
      rw (no_swap, ensure_room) (holds (Quiet-refl q, inr room))
    where
      no_swap : leb q.max_in_mem_segments q.mmap_count ≡ false
      no_swap = ground arith

  map_segment-Ensures :
      (Fail : Type 0) (id k : ℕ) (q : Queue File)
      → Fits Fail q (suc k)
      → Ensures Fail
          (λ _ t. Quiet q t × Fits Fail t k × (t.mapped (get_index q id) ≡ true))
          (map_segment F os id q).0
          (map_segment F os id q).1
  unfolding map_segment
  map_segment-Ensures Fail id k q h = elim (Bool-cases (q.mapped (get_index q id))) [
    | inl e ↦ rw e (holds (Quiet-refl q, fewer h, e))
    | inr e ↦ elim (Bool-cases (os.opens (get_index q id))) [
      | inl o ↦
          rw (e, o)
            (holds (
              Quiet-mapped q (q.mmap_count + 1) (update q.mapped (get_index q id) true),
              one_more h,
              update_self q.mapped (get_index q id) true,
            ))
      | inr o ↦ rw (e, o) (failed (refused o h))
    ]
  ]
    where
      fewer : Fits Fail q (suc k) → Fits Fail q k
      fewer (inl f) = inl f
      fewer (inr (opens, room)) = inr (opens, omega arith)

      one_more :
          Fits Fail q (suc k)
          → Fits Fail
              (record q {
                mmap_count = q.mmap_count + 1;
                mapped = update q.mapped (get_index q id) true;
              })
              k
      one_more (inl f) = inl f
      one_more (inr (opens, room)) = inr (opens, omega arith)

      refused : os.opens (get_index q id) ≡ false → Fits Fail q (suc k) → Fail
      refused o (inl f) = f
      refused o (inr (opens, room)) = absurd (cc (opens (get_index q id)))

  -- Getting a segment gives the index of its file, mapped, and leaves bytes, offsets and locks.
  pub get_segment-Ensures :
      (Fail : Type 0) (fuel id k : ℕ) (q : Queue File)
      → Fits Fail q (suc k)
      → Ensures Fail
          (λ i t. (i ≡ get_index q id) × Quiet q t × Fits Fail t k)
          (get_segment F os fuel id q).0
          (get_segment F os fuel id q).1
  unfolding get_segment
  get_segment-Ensures Fail fuel id k q h =
      Ensures-after _ _ (ensure_room-Ensures Fail fuel k q h) λ _ t p.
        Ensures-after _ _ (map_segment-Ensures Fail id k t p.1) λ _ u r.
          let same_index : get_index u id ≡ get_index q id = index (Kept-trans p.0.0 r.0.0) in
          rw (mapped_there u t (r.0.0) r.2) (holds (same_index, Quiet-trans p.0 r.0, r.1))
    where
      index : {u : Queue File} → Kept q u → get_index u id ≡ get_index q id
      index k = ap (λ c. id % c) k.capacity

      mapped_there :
          (u t : Queue File)
          → Kept t u
          → u.mapped (get_index t id) ≡ true
          → u.mapped (get_index u id) ≡ true
      mapped_there u t k m = ap (λ c. u.mapped (id % c)) k.capacity ∙ m

  pub unlock-Ensures :
      (Fail : Type 0) (id : ℕ) (t : Queue File)
      → t.locker (get_index t id) ≡ true
      → Ensures Fail
          (λ _ u. u ≡ record t { locker = update t.locker (get_index t id) false })
          (unlock id t).0
          (unlock id t).1
  unlock-Ensures Fail id t h = rw h (holds refl)

  -- the queue with the lock of one segment taken
  abbrev pub locked : ℕ → Queue File → Queue File
  locked id q = record q { locker = update q.locker (get_index q id) true }

  pub held : (id : ℕ) (q t : Queue File) → Quiet (locked id q) t → t.locker (get_index t id) ≡ true
  held id q t p =
      ap (λ c. t.locker (id % c)) p.0.capacity
      ∙ ap (λ l. l (get_index q id)) p.2
      ∙ update_self q.locker (get_index q id) true

  lock_back :
      (id : ℕ) (q t : Queue File)
      → q.locker (get_index q id) ≡ false
      → Quiet (locked id q) t
      → (j : ℕ) → update t.locker (get_index t id) false j ≡ q.locker j
  lock_back id q t free p j = rw (p.0.capacity, p.2) (ground (arith, free))

  -- Giving the lock back restores all locks.
  pub given_back :
      (id : ℕ) (q t : Queue File) (fs : ℕ → File)
      → q.locker (get_index q id) ≡ false
      → Quiet (locked id q) t
      → Kept q (record t { files = fs; locker = update t.locker (get_index t id) false })
  given_back id q t fs free p = record {
    segment_size = p.0.segment_size;
    max_in_mem = p.0.max_in_mem;
    capacity = p.0.capacity;
    ceiling = p.0.ceiling;
    max_event = p.0.max_event;
    meta = p.0.meta;
    unflushed = p.0.unflushed;
    signals = p.0.signals;
    mark_read = p.0.mark_read;
    ready = p.0.ready;
    locker = lock_back id q t free p;
    used = p.0.used;
  }

  -- An access to a segment whose lock is free gives the lock back, and changes the files as the
  -- action does.
  pub with_segment-Ensures :
      {A : Type 0} (Fail : Type 0) (fuel id k : ℕ) (q : Queue File) (act : ℕ → M (Queue File) A)
      (Q : A → (ℕ → File) → Type 0)
      → q.locker (get_index q id) ≡ false
      → Fits Fail q (suc k)
      → ((t : Queue File)
          → t.files ≡ q.files
          → (a : A) × (fs : ℕ → File) × (act (get_index q id) t ≡ (ok a, record t { files = fs }))
            × Q a fs)
      → Ensures Fail
          (λ a u. Q a u.files × Kept q u × Fits Fail u k)
          (with_segment F os fuel id act q).0
          (with_segment F os fuel id act q).1
  unfolding with_segment
  with_segment-Ensures Fail fuel id k q act Q free h use_it = rw free (
      Ensures-after _ _ (get_segment-Ensures Fail fuel id k (locked id q) h) λ i t p.
        let (a, fs, e, v) = use_it t p.1.1 in
        rw (p.0, e)
          (Ensures-after _ _ (unlock-Ensures Fail id (record t { files = fs }) (held id q t p.1))
            λ _ u w.
              subst
                (λ (x : Queue File).
                  Ensures Fail (λ a u. Q a u.files × Kept q u × Fits Fail u k) (ok a) x)
                (sym w) (holds (v, given_back id q t fs free p.1, p.2))))
