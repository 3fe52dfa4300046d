-- ===== src/Gatherer/Weights.antt =====
-- The weight of the events in a queue, in a list and in the partitions, for the balance of a gatherer
-- of internal/satellite/module/gatherer.
use skywalking_satellite.Base.{
  ◌++◌, ℕ, zero, suc, ◌+◌, ◌≤◌, ◌<◌, ◌≡◌, refl, ap, ◌⊎◌, inl, inr, false, Bool-cases, update, ◌==◌,
  arith, List, ◌∷◌, [],
}
use skywalking_satellite.Queues.Api.{ApiError, ok, err, Offset, SequenceEvent, QueueOps}

-- What a queue of a partition keeps, as its users count on it: a weight of its events that goes up by
-- that of the event with a successful Enqueue, down by that of the answer with a successful Dequeue,
-- and is left alone otherwise.
pub record Counting {E : Type 0} (Q : QueueOps E) (weight : E → ℕ) : Type 0 where
  pub count : Q.State → ℕ
  pub enqueue_count :
      (e : E) (s : Q.State)
      → (((Q.enqueue e s).0 ≡ ok tt) × (count (Q.enqueue e s).1 ≡ count s + weight e))
        ⊎ ((why : ApiError) × ((Q.enqueue e s).0 ≡ err why) × (count (Q.enqueue e s).1 ≡ count s))
  pub dequeue_count :
      (s : Q.State)
      → ((x : SequenceEvent E) × ((Q.dequeue s).0 ≡ ok x)
          × (count s ≡ count (Q.dequeue s).1 + weight x.event))
        ⊎ ((why : ApiError) × ((Q.dequeue s).0 ≡ err why) × (count (Q.dequeue s).1 ≡ count s))
  pub ack_count : (o : Offset) (s : Q.State) → count (Q.ack o s) ≡ count s

module _ {E : Type 0} (weight : E → ℕ) where
  abbrev pub weigh : List E → ℕ
  weigh [] = 0
  weigh (e ∷ es) = weight e + weigh es

  abbrev pub weigh_out : List (SequenceEvent E) → ℕ
  weigh_out [] = 0
  weigh_out (x ∷ xs) = weight x.event + weigh_out xs

  pub weigh-append : (es fs : List E) → weigh (es ++ fs) ≡ weigh es + weigh fs
  weigh-append [] fs = omega arith
  weigh-append (e ∷ es) fs = omega (arith, weigh-append es fs)

  pub weigh_out-last :
      (xs : List (SequenceEvent E)) (x : SequenceEvent E)
      → weigh_out (xs ++ (x ∷ [])) ≡ weigh_out xs + weight x.event
  weigh_out-last [] x = omega arith
  weigh_out-last (y ∷ xs) x = omega (arith, weigh_out-last xs x)

module _ {A : Type 0} (count : A → ℕ) where
  abbrev pub total : ℕ → (ℕ → A) → ℕ
  total zero f = 0
  total (suc n) f = total n f + count (f n)

  total-beyond : (n i : ℕ) (f : ℕ → A) (a : A) → n ≤ i → total n (update f i a) ≡ total n f
  total-beyond zero i f a h = refl
  total-beyond (suc n) i f a h =
      let other : i == n ≡ false = ground arith in
      rw other (ap (λ k. k + count (f n)) (total-beyond n i f a (omega arith)))

  pub total-update :
      (n i : ℕ) (f : ℕ → A) (a : A)
      → i < n
      → total n (update f i a) + count (f i) ≡ total n f + count a
  total-update zero i f a h = elim h [ ]
  total-update (suc n) i f a h = elim (Bool-cases (i == n)) [
    | inl last ↦
        let at : i ≡ n = ground (arith, last) in
        rw last (omega (arith, total-beyond n i f a (omega (arith, at)), ap (λ k. count (f k)) at))
    | inr other ↦ rw other (omega (arith, total-update n i f a (ground (arith, other))))
  ]
