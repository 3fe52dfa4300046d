-- ===== src/Mmap/Quiet.antt =====
-- Mapping segments and swapping them out leaves the bytes, the offsets and the locks alone.
use skywalking_satellite.Base.{
  ℕ, zero, suc, ◌+◌, ◌-◌, ◌||◌, Bool, true, false, inl, inr, leb, ◌==◌, update, Bool-cases,
}
use skywalking_satellite.Mmap.File.{MmapFile, System}
use skywalking_satellite.Mmap.Outcome.{M, Outcome, ok, err, spin, after, log_error}
use skywalking_satellite.Mmap.State.{Queue, get_index}
use skywalking_satellite.Mmap.Segments.{
  finished, returned, map_segment, unmap_segment, swap_out, swap_pass, swap_loop, do_swap,
  on_insufficient_mem, ensure_room,
}
use skywalking_satellite.Mmap.Kept.{Quiet, Quiet-refl, Quiet-trans, Quiet-mapped}

module _ (F : MmapFile) (os : System) where
  open F use {File}

  map_segment-Quiet : (id : ℕ) (q : Queue File) → Quiet q (map_segment F os id q).1
  unfolding map_segment
  map_segment-Quiet id q = elim (Bool-cases (q.mapped (get_index q id))) [
    | inl e ↦ rw e (Quiet-refl q)
    | inr e ↦ elim (Bool-cases (os.opens (get_index q id))) [
      | inl o ↦
          rw (e, o) (Quiet-mapped q (q.mmap_count + 1) (update q.mapped (get_index q id) true))
      | inr o ↦ rw (e, o) (Quiet-refl q)
    ]
  ]

  pub unmap_segment-Quiet : (id : ℕ) (q : Queue File) → Quiet q (unmap_segment F os id q).1
  unfolding unmap_segment
  unmap_segment-Quiet id q = elim (Bool-cases (q.mapped (get_index q id))) [
    | inr e ↦ rw e (Quiet-refl q)
    | inl e ↦ elim (Bool-cases (os.flushes (get_index q id))) [
      | inr o ↦ rw (e, o) (Quiet-refl q)
      | inl o ↦ elim (Bool-cases (os.unmaps (get_index q id))) [
        | inr u ↦ rw (e, o, u) (Quiet-refl q)
        | inl u ↦
            rw (e, o, u)
              (Quiet-mapped q (q.mmap_count - 1) (update q.mapped (get_index q id) false))
      ]
    ]
  ]

  -- What follows a quiet step, whatever the outcome of the step.
  after-Quiet :
      {A B : Type 0} (f : A → M (Queue File) B) (o : Outcome A) (q s : Queue File)
      → Quiet q s
      → ((a : A) (t : Queue File) → Quiet t (f a t).1)
      → Quiet q (after o s f).1
  after-Quiet f (ok a) q s h k = Quiet-trans h (k a s)
  after-Quiet f (err e) q s h k = h
  after-Quiet f spin q s h k = h

  swap_out-Quiet :
      (w r : ℕ) (c : Bool) (i : ℕ) (q : Queue File) → Quiet q (swap_out F os w r c i q).1
  unfolding swap_out
  swap_out-Quiet w r c i q = elim (Bool-cases ((get_index q i == w) || (get_index q i == r))) [
    | inl e ↦ rw e (Quiet-refl q)
    | inr e ↦ rw e (
        after-Quiet _ (unmap_segment F os i q).0 q (unmap_segment F os i q).1
          (unmap_segment-Quiet i q) (λ _ t. Quiet-refl t))
  ]

  swap_pass-Quiet :
      (n i w r : ℕ) (c : Bool) (q : Queue File) → Quiet q (swap_pass F os n i w r c q).1
  unfolding swap_pass
  swap_pass-Quiet zero i w r c q = Quiet-refl q
  swap_pass-Quiet (suc n) zero w r c q = Quiet-refl q
  swap_pass-Quiet (suc n) (suc i) w r c q =
      after-Quiet _ (swap_out F os w r c i q).0 q (swap_out F os w r c i q).1
        (swap_out-Quiet w r c i q)
        (elim [ returned ↦ (λ t. Quiet-refl t) | finished ↦ swap_pass-Quiet n i w r c ])

  swap_loop-Quiet :
      (fuel l w r : ℕ) (c : Bool) (q : Queue File) → Quiet q (swap_loop F os fuel l w r c q).1
  unfolding swap_loop
  swap_loop-Quiet zero l w r c q = elim (Bool-cases (leb q.max_in_mem_segments q.mmap_count)) [
    | inl e ↦ rw e (Quiet-refl q)
    | inr e ↦ rw e (Quiet-refl q)
  ]
  swap_loop-Quiet (suc fuel) l w r c q =
      elim (Bool-cases (leb q.max_in_mem_segments q.mmap_count)) [
        | inr e ↦ rw e (Quiet-refl q)
        | inl e ↦ rw e (
            after-Quiet _ (swap_pass F os q.max_in_mem_segments l w r c q).0 q
              (swap_pass F os q.max_in_mem_segments l w r c q).1
              (swap_pass-Quiet q.max_in_mem_segments l w r c q)
              (elim [ returned ↦ (λ t. Quiet-refl t) | finished ↦ swap_loop-Quiet fuel l w r c ]))
      ]

  -- Swapping segments out, however it ends, leaves the bytes, the offsets and the locks.
  pub do_swap-Quiet : (fuel : ℕ) (q : Queue File) → Quiet q (do_swap F os fuel q).1
  unfolding do_swap
  do_swap-Quiet fuel q = swap_loop-Quiet fuel _ _ _ _ q

  log_error-Quiet :
      (o : Outcome (Unit {0})) (q s : Queue File) → Quiet q s → Quiet q (log_error o s).1
  log_error-Quiet (ok a) q s h = h
  log_error-Quiet (err e) q s h = h
  log_error-Quiet spin q s h = h

  on_insufficient_mem-Quiet :
      (fuel : ℕ) (q : Queue File) → Quiet q (on_insufficient_mem F os fuel q).1
  unfolding on_insufficient_mem
  on_insufficient_mem-Quiet fuel q = elim (Bool-cases (leb q.max_in_mem_segments q.mmap_count)) [
    | inl e ↦
        rw e
          (log_error-Quiet (do_swap F os fuel q).0 q (do_swap F os fuel q).1 (do_swap-Quiet fuel q))
    | inr e ↦ rw e (Quiet-refl q)
  ]

  pub ensure_room-Quiet : (fuel : ℕ) (q : Queue File) → Quiet q (ensure_room F os fuel q).1
  unfolding ensure_room
  ensure_room-Quiet fuel q = elim (Bool-cases (leb q.max_in_mem_segments q.mmap_count)) [
    | inl e ↦ rw e (on_insufficient_mem-Quiet fuel q)
    | inr e ↦ rw e (Quiet-refl q)
  ]
