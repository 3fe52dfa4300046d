-- ===== src/Mmap/Position.antt =====
-- Places in the queue: a segment and an offset in it, in their order, and how a cursor moves.
use skywalking_satellite.Base.{
  ℕ, zero, suc, ◌+◌, ◌≤◌, ◌<◌, ◌≡◌, refl, ap, ◌∙◌, ◌⊎◌, inr, arith, List, length, length-drop, drop,
}
use skywalking_satellite.Mmap.Operation.{uint64_size, skip_tail, carry}

abbrev pub Place : Type 0
Place = ℕ × ℕ

abbrev pub Before : Place → Place → Type 0
Before p q = (p.0 < q.0) ⊎ ((p.0 ≡ q.0) × (p.1 < q.1))

abbrev pub AtMost : Place → Place → Type 0
AtMost p q = (p.0 < q.0) ⊎ ((p.0 ≡ q.0) × (p.1 ≤ q.1))

pub AtMost-trans : {p q r : Place} → AtMost p q → AtMost q r → AtMost p r
AtMost-trans h k = omega arith

pub AtMost-Before : {p q r : Place} → AtMost p q → Before q r → Before p r
AtMost-Before h k = omega arith

pub Before-AtMost : {p q r : Place} → Before p q → AtMost q r → Before p r
Before-AtMost h k = omega arith

pub Before-weaken : {p q : Place} → Before p q → AtMost p q
Before-weaken h = omega arith

module _ (size : ℕ) where
  -- the place of the next byte
  abbrev pub next : Place → Place
  next p = carry size (p.0, p.1 + 1)

  abbrev pub walk : ℕ → Place → Place
  walk zero p = p
  walk (suc n) p = walk n (next p)

  -- where the bytes begin of a message whose length is written at `p`
  abbrev pub body : Place → Place
  body p = let (id, offset) = skip_tail size p in carry size (id, offset + uint64_size)

  pub next-Before : (p : Place) → Before p (next p)
  next-Before p = ground arith

  pub next_inside : (p : Place) → p.1 < size → (next p).1 < size
  next_inside p h = ground arith

  pub walk-AtMost : (n : ℕ) (p : Place) → AtMost p (walk n p)
  walk-AtMost zero p = inr (refl, omega arith)
  walk-AtMost (suc n) p = AtMost-trans (Before-weaken (next-Before p)) (walk-AtMost n (next p))

  pub walk-Before : (n : ℕ) (p : Place) → 0 < n → Before p (walk n p)
  walk-Before zero p h = absurd (omega arith)
  walk-Before (suc n) p h = Before-AtMost (next-Before p) (walk-AtMost n (next p))

  pub walk_inside : (n : ℕ) (p : Place) → p.1 < size → (walk n p).1 < size
  walk_inside zero p h = h
  walk_inside (suc n) p h = walk_inside n (next p) (next_inside p h)

  pub walk-add : (m n : ℕ) (p : Place) → walk (m + n) p ≡ walk n (walk m p)
  walk-add zero n p = let e : 0 + n ≡ n = omega arith in ap (λ k. walk k p) e
  walk-add (suc m) n p = ap (λ k. walk k p) (suc-add m n) ∙ walk-add m n (next p)
    where
      suc-add : (a b : ℕ) → suc a + b ≡ suc (a + b)
      suc-add a b = omega arith

  -- the bytes that fit into one segment
  pub walk_chunk :
      (n id offset : ℕ)
      → offset < size
      → offset + n ≤ size
      → walk n (id, offset) ≡ carry size (id, offset + n)
  walk_chunk zero id offset h k = ground arith
  walk_chunk (suc zero) id offset h k = refl
  walk_chunk (suc (suc n)) id offset h k =
      let inside : carry size (id, offset + 1) ≡ (id, offset + 1) = ground arith in
      ap (walk (suc n)) inside
      ∙ walk_chunk (suc n) id (offset + 1) (omega arith) (omega arith)
      ∙ ap (λ t. carry size (id, t)) (omega arith)

  pub skip_tail-AtMost : (p : Place) → AtMost p (skip_tail size p)
  skip_tail-AtMost p = ground arith

  pub skip_tail_fits : (p : Place) → 8 ≤ size → (skip_tail size p).1 + 8 ≤ size
  skip_tail_fits p h = ground arith

  pub body-Before : (p : Place) → Before p (body p)
  body-Before p = ground arith

  pub skip_tail-body : (p : Place) → AtMost (skip_tail size p) (body p)
  skip_tail-body p = ground arith

  pub body_inside : (p : Place) → 8 ≤ size → (body p).1 < size
  body_inside p h = ground (arith, skip_tail_fits p h)

  pub chunk_end :
      (id offset n : ℕ) → offset < size → offset + n ≡ size → walk n (id, offset) ≡ (id + 1, 0)
  chunk_end id offset n h full = walk_chunk n id offset h (omega arith) ∙ ground arith

  -- the cursor's way goes through the start of the next segment
  pub walk_split :
      (bytes : List ℕ) (id offset n : ℕ)
      → offset < size
      → n < length bytes
      → offset + n ≡ size
      → walk (length bytes) (id, offset) ≡ walk (length (drop n bytes)) (id + 1, 0)
  walk_split bytes id offset n h less full =
      ap (λ m. walk m (id, offset)) sum
      ∙ walk-add n (length (drop n bytes)) (id, offset)
      ∙ ap (walk (length (drop n bytes))) (chunk_end id offset n h full)
    where
      sum : length bytes ≡ n + length (drop n bytes)
      sum = omega (arith, length-drop n bytes)
