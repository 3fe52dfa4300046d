-- ===== src/Mmap/Fifo/Marks.antt =====
-- What marking a segment as read leaves alone.
use skywalking_satellite.Base.{
  ℕ, ◌-◌, ◌^◌, ◌<◌, ◌≡◌, refl, sym, subst, inl, inr, false, Bool-cases, List, [], ◌∷◌, arith,
  update,
}
use skywalking_satellite.Mmap.File.{MmapFile, System}
use skywalking_satellite.Mmap.Meta.{uint64_to_int}
use skywalking_satellite.Mmap.Outcome.{Ensures, holds, Ensures-after, Ensures-weaken, logged}
use skywalking_satellite.Mmap.State.{Queue, get_index}
use skywalking_satellite.Mmap.Segments.{unmap_segment, on_mark_read}
use skywalking_satellite.Mmap.Access.{locked, held, unlock-Ensures, given_back}
use skywalking_satellite.Mmap.Kept.{Kept, Kept-refl, Kept-unmarked, Quiet, Quiet-refl, Quiet-mapped}
use skywalking_satellite.Mmap.Operation.{push_mark, send_mark_read}

pub uint64_to_int_small : (v : ℕ) → v < 2 ^ 63 → uint64_to_int v ≡ v
unfolding uint64_to_int
uint64_to_int_small v h = ground arith

module _ (F : MmapFile) (os : System) where
  open F use {File}

  -- the same queue, apart from what is mapped and what is marked as read
  abbrev pub Marked : Queue File → Queue File → Type 0
  Marked q t = Kept q (record t { mark_read = q.mark_read }) × (t.files ≡ q.files)

  -- An error of the unmapping is logged, so the swapper goes on.
  logged_unmap-Ensures :
      (Fail : Type 0) (id : ℕ) (q : Queue File)
      → Ensures Fail
          (λ _ t. Quiet q t)
          (logged (unmap_segment F os id) q).0
          (logged (unmap_segment F os id) q).1
  unfolding unmap_segment
  logged_unmap-Ensures Fail id q = elim (Bool-cases (q.mapped (get_index q id))) [
    | inr e ↦ rw e (holds (Quiet-refl q))
    | inl e ↦ elim (Bool-cases (os.flushes (get_index q id))) [
      | inr o ↦ rw (e, o) (holds (Quiet-refl q))
      | inl o ↦ elim (Bool-cases (os.unmaps (get_index q id))) [
        | inr u ↦ rw (e, o, u) (holds (Quiet-refl q))
        | inl u ↦
            rw (e, o, u)
              (holds (Quiet-mapped q (q.mmap_count - 1) (update q.mapped (get_index q id) false)))
      ]
    ]
  ]

  pub on_mark_read-Ensures :
      (Fail : Type 0) (id : ℕ) (q : Queue File)
      → ((i : ℕ) → q.locker i ≡ false)
      → Ensures Fail
          (λ _ t. Kept q t × (t.files ≡ q.files))
          (on_mark_read F os id q).0
          (on_mark_read F os id q).1
  unfolding on_mark_read
  on_mark_read-Ensures Fail id q free = rw (free (get_index q id)) (
      Ensures-after _ _ (logged_unmap-Ensures Fail id (locked F os id q)) λ _ t p.
        Ensures-weaken (unlock-Ensures F os Fail id t (held F os id q t p)) λ _ u w.
          subst (λ (x : Queue File). Kept q x × (x.files ≡ q.files)) (sym w)
            (given_back F os id q t t.files (free (get_index q id)) p, p.1))

  push_mark-Ensures :
      (Fail : Type 0) (marks : List ℕ) (id : ℕ) (q : Queue File)
      → ((i : ℕ) → q.locker i ≡ false)
      → Ensures Fail (λ _ t. Marked q t) (push_mark F os marks id q).0 (push_mark F os marks id q).1
  unfolding push_mark
  push_mark-Ensures Fail [] id q free = holds (Kept-refl q, refl)
  push_mark-Ensures Fail (old ∷ rest) id q free =
      Ensures-after _ _ (on_mark_read-Ensures Fail old q free)
        λ _ t p. holds (Kept-unmarked p.0, p.1)

  pub send_mark_read-Ensures :
      (Fail : Type 0) (id : ℕ) (q : Queue File)
      → ((i : ℕ) → q.locker i ≡ false)
      → Ensures Fail (λ _ t. Marked q t) (send_mark_read F os id q).0 (send_mark_read F os id q).1
  unfolding send_mark_read
  send_mark_read-Ensures Fail id q free = push_mark-Ensures Fail q.mark_read id q free
