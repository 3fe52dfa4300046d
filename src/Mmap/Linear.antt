-- ===== src/Mmap/Linear.antt =====
-- Places as numbers: how far a message takes the cursor.
use native.Mathlib.Nat.{div-add-mod}
use skywalking_satellite.Base.{
  ℕ, zero, suc, ◌+◌, ◌-◌, ◌*◌, ◌/◌, ◌%◌, ◌≤◌, ◌<◌, ◌≡◌, refl, inl, inr, Bool-cases, arith, ltb,
  ◌==◌, ==_iff,
}
use skywalking_satellite.Mmap.Operation.{carry, skip_tail}
use skywalking_satellite.Mmap.Position.{Place, next, walk, body, next_inside, body_inside}

module _ (size : ℕ) where
  -- the number of bytes before a place
  abbrev linear : Place → ℕ
  linear p = p.0 * size + p.1

  linear-next : (p : Place) → p.1 < size → linear (next size p) ≡ linear p + 1
  linear-next p h = elim (Bool-cases (p.1 + 1 == size)) [
    | inl e ↦ rw e (grind (arith, e))
    | inr e ↦ rw e (omega arith)
  ]

  linear-walk : (n : ℕ) (p : Place) → p.1 < size → linear (walk size n p) ≡ linear p + n
  linear-walk zero p h = omega arith
  linear-walk (suc n) p h =
      omega (arith, linear-walk n (next size p) (next_inside size p h), linear-next p h)

  linear-carry : (p : Place) → linear (carry size p) ≡ linear p
  linear-carry p = elim (Bool-cases (p.1 == size)) [
    | inl e ↦ rw e (grind (arith, (==_iff p.1 size).0 e))
    | inr e ↦ rw e refl
  ]

  linear-skip_tail : (p : Place) → linear (skip_tail size p) ≤ p.0 * size + size
  linear-skip_tail p = elim (Bool-cases (ltb size (p.1 + 8))) [
    | inl e ↦ rw e (grind arith)
    | inr e ↦ rw e (ground (arith, e))
  ]

  linear-body : (p : Place) → linear (body size p) ≤ p.0 * size + size + 8
  linear-body p =
      omega
        (arith, linear-carry ((skip_tail size p).0, (skip_tail size p).1 + 8), linear-skip_tail p)

  -- A message that ends less than a word below the end of a segment takes the cursor on by at
  -- most one segment more than it fills.
  pub end_bound :
      (w : Place) (len max : ℕ)
      → 8 ≤ size
      → w.1 < size
      → len ≤ max
      → max % size + 8 < size
      → (walk size len (body size w)).0 ≤ w.0 + 1 + max / size
  end_bound w len max hs hw hl hm = omega (
    arith,
    less_of_mul ((walk size len (body size w)).0) (w.0 + 2 + max / size) (
        grind (
          arith,
          linear-walk len (body size w) (body_inside size w hs),
          div-add-mod max size,
          linear-body w,
        )),
  )
    where
      less_of_mul : (a b : ℕ) → a * size < b * size → a ≤ b - 1
      less_of_mul a b h = grind arith
