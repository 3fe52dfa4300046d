-- ===== src/Queues/Partition/Find.antt =====
-- findPartition: partitions are tried in turn, and ErrFull means that all are full.
use skywalking_satellite.Base.{
  ℕ, zero, suc, ◌+◌, ◌-◌, ◌%◌, ◌≤◌, ◌<◌, ◌≡◌, refl, sym, subst, ap, ◌∙◌, ◌⊎◌, inl, inr, true, false,
  Bool-cases, leb, ltb, ◌==◌, if◌then◌else◌, arith,
}
use skywalking_satellite.Queues.Api.{err_full, Result, ok, err, QueueOps}
use skywalking_satellite.Queues.Partition.{
  PartitionedQueue, next_partition, find_other, search_from, find_partition,
}

module _ {E : Type 0} (Q : QueueOps E) where
  open Q use {State, is_full}

  abbrev wrap : ℕ → ℕ → ℕ → ℕ
  wrap n partition addition =
      if leb n (partition + addition) then partition + addition - n else partition + addition

  -- what a search has found among the partitions in `Tried`
  abbrev Search : (p : PartitionedQueue State) → (ℕ → Type 0) → Result ℕ → Type 0
  Search p Tried r =
      ((i : ℕ) × (r ≡ ok i) × (i < p.partition) × (is_full (p.sub_queues i) ≡ false))
      ⊎ ((r ≡ err err_full) × ((i : ℕ) → Tried i → is_full (p.sub_queues i) ≡ true))

  find_other-Search :
      (rounds addition partition : ℕ) (p : PartitionedQueue State)
      → partition < p.partition
      → addition + rounds ≡ p.partition
      → Search p
          (λ i. (a : ℕ) × (addition ≤ a) × (a < p.partition) × (i ≡ wrap p.partition partition a))
          (find_other Q rounds addition partition p)
  unfolding find_other
  find_other-Search zero addition partition p h e =
      inr (refl, λ i t. absurd (omega (arith, t.1, t.2)))
  find_other-Search (suc rounds) addition partition p h e =
      elim (Bool-cases (is_full (p.sub_queues (wrap p.partition partition addition)))) [
        | inr free ↦ inl (wrap p.partition partition addition, rw free refl, ground arith, free)
        | inl taken ↦ elim (find_other-Search rounds (addition + 1) partition p h (omega arith)) [
          | inl (i, r, j, free) ↦ inl (i, rw taken r, j, free)
          | inr (r, rest) ↦ inr (
            rw taken r,
            λ i t. elim (Bool-cases (t.0 == addition)) [
              | inl same ↦
                  subst (λ k. is_full (p.sub_queues k) ≡ true)
                    (sym (t.3 ∙ ap (wrap p.partition partition) (ground (arith, same)))) taken
              | inr other ↦ rest i (t.0, ground (arith, other, t.1), t.2, t.3)
            ],
          )
        ]
      ]

  next_partition_lem :
      (p : PartitionedQueue State)
      → p.load_balancer_index < p.partition
      → ((next_partition Q p).0 ≡ (p.load_balancer_index + 1) % p.partition)
        × ((next_partition Q p).1
            ≡ record p { load_balancer_index = (p.load_balancer_index + 1) % p.partition })
  unfolding next_partition
  next_partition_lem p h = elim (Bool-cases (ltb (p.load_balancer_index + 1) p.partition)) [
    | inl more ↦
        let e : p.load_balancer_index + 1 ≡ (p.load_balancer_index + 1) % p.partition =
          grind (arith, more) in
        rw more (e, ap (λ i. record p { load_balancer_index = i }) e)
    | inr last ↦
        let e : 0 ≡ (p.load_balancer_index + 1) % p.partition = turn (ground (arith, last)) in
        rw last (e, ap (λ i. record p { load_balancer_index = i }) e)
  ]
    where
      turn : p.load_balancer_index + 1 ≡ p.partition → 0 ≡ (p.load_balancer_index + 1) % p.partition
      turn at = grind (arith, at)

  -- What findPartition comes to, when the index was in range and there are several partitions.
  pub record Found (p : PartitionedQueue State) (r : Result ℕ) (t : PartitionedQueue State)
      : Type 0 where
    pub turned : t ≡ record p { load_balancer_index = (p.load_balancer_index + 1) % p.partition }
    pub next_first :
        is_full (p.sub_queues ((p.load_balancer_index + 1) % p.partition)) ≡ false
        → r ≡ ok ((p.load_balancer_index + 1) % p.partition)
    pub search : Search p (λ i. i < p.partition) r

  moved_on : PartitionedQueue State → PartitionedQueue State
  moved_on p = record p { load_balancer_index = (p.load_balancer_index + 1) % p.partition }

  search_from-Found :
      (p : PartitionedQueue State)
      → 1 < p.partition
      → Found p
          (search_from Q ((p.load_balancer_index + 1) % p.partition) (moved_on p)).0
          (search_from Q ((p.load_balancer_index + 1) % p.partition) (moved_on p)).1
  unfolding search_from moved_on
  search_from-Found p many = elim (Bool-cases (is_full (p.sub_queues first))) [
    | inr free ↦
        rw free (record {
          turned = refl;
          next_first = λ _. refl;
          search = inl (first, refl, below, free);
        })
    | inl taken ↦ rw taken (record {
      turned = refl;
      next_first = λ free. absurd (cc (free, taken));
      search =
          others taken
            (find_other-Search (p.partition - 1) 1 first (moved_on p) below (omega arith));
    })
  ]
    where
      first : ℕ
      first = (p.load_balancer_index + 1) % p.partition

      below : first < p.partition
      below = grind arith

      others :
          is_full (p.sub_queues first) ≡ true
          → Search p
              (λ i. (a : ℕ) × (1 ≤ a) × (a < p.partition) × (i ≡ wrap p.partition first a))
              (find_other Q (p.partition - 1) 1 first (moved_on p))
          → Search p (λ i. i < p.partition) (find_other Q (p.partition - 1) 1 first (moved_on p))
      others taken (inl found) = inl found
      others taken (inr (r, rest)) = inr (
        r,
        λ i lower. elim (Bool-cases (i == first)) [
          | inl same ↦ subst (λ k. is_full (p.sub_queues k) ≡ true) (ground (arith, same)) taken
          | inr other ↦ rest i (distance i lower other)
        ],
      )
        where
          distance :
              (i : ℕ)
              → i < p.partition
              → i == first ≡ false
              → (a : ℕ) × (1 ≤ a) × (a < p.partition) × (i ≡ wrap p.partition first a)
          distance i lower other = elim (Bool-cases (ltb first i)) [
            | inl above ↦ (
              i - first,
              ground (arith, above),
              ground (arith, above),
              ground (arith, above, lower),
            )
            | inr under ↦ (
              i + p.partition - first,
              ground (arith, below),
              ground (arith, under, other, below),
              ground (arith, under, other, below),
            )
          ]

  -- The partition behind the last one is taken if it is not full; a result is always the number
  -- of a partition that is not full, and ErrFull means that every partition is full. The index
  -- goes on by one and around, whatever is found.
  pub find_partition-Found :
      (p : PartitionedQueue State)
      → 1 < p.partition
      → p.load_balancer_index < p.partition
      → Found p (find_partition Q p).0 (find_partition Q p).1
  unfolding find_partition moved_on
  find_partition-Found p many h =
      let several : p.partition == 1 ≡ false = ground (arith, many) in
      let (first, moved) = next_partition_lem p h in
      subst (λ x. Found p x.0 x.1)
        (sym (
          ap
            (λ b.
              if b then (ok 0, p) else search_from Q (next_partition Q p).0 (next_partition Q p).1)
            several
          ∙ (λ i. search_from Q (first i) (moved i))))
        (search_from-Found p many)
