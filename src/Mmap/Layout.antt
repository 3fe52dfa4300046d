-- ===== src/Mmap/Layout.antt =====
-- How messages lie in the segment files, and that writes behind them leave them alone.
use skywalking_satellite.Base.{
  ℕ, ◌+◌, ◌%◌, ◌≡◌, refl, sym, subst, ◌∙◌, inr, List, [], ◌∷◌, ◌++◌, length, arith,
}
use skywalking_satellite.Mmap.File.{MmapFile}
use skywalking_satellite.Mmap.Operation.{skip_tail}
use skywalking_satellite.Mmap.Position.{
  Place, Before, AtMost, AtMost-trans, Before-AtMost, Before-weaken, next, walk, body, next-Before,
  walk-AtMost, skip_tail-AtMost, body-Before,
}

module _ (F : MmapFile) (size capacity : ℕ) where
  open F use {File, byte, read_uint64_at, word_of_bytes}

  -- the byte at a place, in the file that the segment shares with others
  abbrev pub cell : (ℕ → File) → Place → ℕ
  cell files p = byte (files (p.0 % capacity)) p.1

  abbrev pub word : (ℕ → File) → Place → ℕ
  word files p = read_uint64_at (files (p.0 % capacity)) p.1

  -- `bs` are the bytes from the place on.
  abbrev pub Stored : (ℕ → File) → Place → List ℕ → Type 0
  Stored files p [] = Unit {0}
  Stored files p (b ∷ bs) = (cell files p ≡ b) × Stored files (next size p) bs

  -- From `r` to `w` lie exactly these messages.
  abbrev pub Laid : (ℕ → File) → Place → List (List ℕ) → Place → Type 0
  Laid files r [] w = r ≡ w
  Laid files r (m ∷ ms) w =
      (word files (skip_tail size r) ≡ length m)
      × Stored files (body size r) m
      × Laid files (walk size (length m) (body size r)) ms w

  pub Stored-append :
      (files : ℕ → File) (p : Place) (xs ys : List ℕ)
      → Stored files p xs
      → Stored files (walk size (length xs) p) ys
      → Stored files p (xs ++ ys)
  Stored-append files p [] ys h k = k
  Stored-append files p (x ∷ xs) ys h k = (h.0, Stored-append files (next size p) xs ys h.1 k)

  pub Laid-append :
      (files : ℕ → File) (r : Place) (ms ns : List (List ℕ)) (w v : Place)
      → Laid files r ms w
      → Laid files w ns v
      → Laid files r (ms ++ ns) v
  Laid-append files r [] ns w v h k = subst (λ t. Laid files t ns v) (sym h) k
  Laid-append files r (m ∷ ms) ns w v h k =
      (h.0, h.1, Laid-append files (walk size (length m) (body size r)) ms ns w v h.2 k)

  pub Laid-AtMost :
      (files : ℕ → File) (r : Place) (ms : List (List ℕ)) (w : Place)
      → Laid files r ms w
      → AtMost r w
  Laid-AtMost files r [] w h = subst (AtMost r) h (inr (refl, omega arith))
  Laid-AtMost files r (m ∷ ms) w h = AtMost-trans (Before-weaken (body-Before size r)) (
      AtMost-trans (walk-AtMost size (length m) (body size r))
        (Laid-AtMost files (walk size (length m) (body size r)) ms w h.2))

  -- A queue with a message has its reading offset before its writing offset.
  pub Laid-Before :
      (files : ℕ → File) (r : Place) (m : List ℕ) (ms : List (List ℕ)) (w : Place)
      → Laid files r (m ∷ ms) w
      → Before r w
  Laid-Before files r m ms w h = Before-AtMost (body-Before size r) (
      AtMost-trans (walk-AtMost size (length m) (body size r))
        (Laid-AtMost files (walk size (length m) (body size r)) ms w h.2))

  -- The files agree on what lies between two places.
  abbrev pub Agree : (ℕ → File) → (ℕ → File) → Place → Place → Type 0
  Agree f g r w = (p : Place) → AtMost r p → Before p w → cell g p ≡ cell f p

  pub Stored-Agree :
      (f g : ℕ → File) (p : Place) (bs : List ℕ)
      → Agree f g p (walk size (length bs) p)
      → Stored f p bs
      → Stored g p bs
  Stored-Agree f g p [] a h = tt
  Stored-Agree f g p (b ∷ bs) a h = (
    a p (inr (refl, omega arith))
          (Before-AtMost (next-Before size p) (walk-AtMost size (length bs) (next size p)))
        ∙ h.0,
    Stored-Agree f g (next size p) bs
        (λ t at below. a t (AtMost-trans (Before-weaken (next-Before size p)) at) below) h.1,
  )

  pub word-Agree : (f g : ℕ → File) (p : Place) → Agree f g p (p.0, p.1 + 8) → word g p ≡ word f p
  word-Agree f g p a =
      word_of_bytes (g (p.0 % capacity)) (f (p.0 % capacity)) p.1
        (λ k h. a (p.0, p.1 + k) (inr (refl, omega arith)) (inr (refl, omega arith)))

  pub word_below_body :
      (p : Place) → AtMost ((skip_tail size p).0, (skip_tail size p).1 + 8) (body size p)
  word_below_body p = ground arith

  pub Laid-Agree :
      (f g : ℕ → File) (r : Place) (ms : List (List ℕ)) (w : Place)
      → Agree f g r w
      → Laid f r ms w
      → Laid g r ms w
  Laid-Agree f g r [] w a h = h
  Laid-Agree f g r (m ∷ ms) w a h =
      let last = Laid-AtMost f (walk size (length m) (body size r)) ms w h.2 in
      (
        word-Agree f g (skip_tail size r) (λ p at below.
              a p (AtMost-trans (skip_tail-AtMost size r) at) (
                Before-AtMost below (
                  AtMost-trans (word_below_body r)
                    (AtMost-trans (walk-AtMost size (length m) (body size r)) last))))
            ∙ h.0,
        Stored-Agree f g (body size r) m
            (λ p at below.
              a p (AtMost-trans (Before-weaken (body-Before size r)) at) (Before-AtMost below last))
            h.1,
        Laid-Agree f g (walk size (length m) (body size r)) ms w
            (λ p at below.
              a p
                (AtMost-trans (Before-weaken (body-Before size r))
                  (AtMost-trans (walk-AtMost size (length m) (body size r)) at))
                below)
            h.2,
      )
