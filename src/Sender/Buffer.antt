-- ===== src/Sender/Buffer.antt =====
-- internal/satellite/module/buffer/buffer.go: the batch that the sender fills.
use skywalking_satellite.Base.{
  ℕ, ◌+◌, ◌≤◌, ◌<◌, ◌≡◌, refl, sym, subst, ap, ◌∙◌, ◌⊎◌, inl, inr, true, false, Bool-cases, Option,
  none, some, List, [], ◌∷◌, ◌++◌, length, length-append, update, update_self, update_ne, ◌==◌,
  if◌then◌else◌, arith, Option-cases,
}
use skywalking_satellite.Queues.Api.{Offset}

-- event.OutputEventContext: the events by name, in the order in which a range over the map gives
-- them, and the offset, which may be nil.
pub record OutputEventContext (Event : Type 0) : Type 0 where
  pub context : List (List ℕ × Event)
  pub offset : Option Offset

-- `buf` at an index is nil until an item is put there.
pub record BatchBuffer (Event : Type 0) : Type 0 where
  pub buf : ℕ → Option (OutputEventContext Event)
  pub first : Option Offset
  pub last : Option Offset
  pub size : ℕ
  pub cap : ℕ

module _ {Event : Type 0} where
  unfoldable pub new_batch_buffer : ℕ → BatchBuffer Event
  new_batch_buffer capacity = record {
    buf = λ _. none;
    first = none;
    last = none;
    size = 0;
    cap = capacity;
  }

  -- Add behind its guards
  abbrev pub put : OutputEventContext Event → Offset → BatchBuffer Event → BatchBuffer Event
  put item offset b = record b {
    first = if b.size == 0 then some offset else b.first;
    last = some offset;
    buf = update b.buf b.size (some item);
    size = b.size + 1;
  }

  -- An item without an offset is not taken.
  abbrev pub put_offset :
      Option Offset → OutputEventContext Event → BatchBuffer Event → BatchBuffer Event
  put_offset none item b = b
  put_offset (some offset) item b = put item offset b

  unfoldable pub add : OutputEventContext Event → BatchBuffer Event → BatchBuffer Event
  add item b = if b.size == b.cap then b else put_offset item.offset item b

  -- The items in a buffer, `n` of them from the front.
  abbrev pub Filled :
      (ℕ → Option (OutputEventContext Event)) → ℕ → List (OutputEventContext Event) → Type 0
  Filled buf i [] = Unit {0}
  Filled buf i (x ∷ xs) = (buf i ≡ some x) × Filled buf (i + 1) xs

  abbrev pub last_offset : Option Offset → List (OutputEventContext Event) → Option Offset
  last_offset o [] = o
  last_offset o (x ∷ xs) = last_offset x.offset xs

  abbrev pub first_offset : List (OutputEventContext Event) → Option Offset
  first_offset [] = none
  first_offset (x ∷ xs) = x.offset

  -- A buffer holds exactly these items: none is nil, and the offsets are those of its ends.
  pub record Contains (b : BatchBuffer Event) (xs : List (OutputEventContext Event)) : Type 0 where
    pub filled : Filled b.buf 0 xs
    pub count : b.size ≡ length xs
    pub inside : b.size ≤ b.cap
    pub from : b.first ≡ first_offset xs
    pub to : b.last ≡ last_offset none xs

  pub new_batch_buffer-Contains : (capacity : ℕ) → Contains (new_batch_buffer capacity) []
  unfolding new_batch_buffer
  new_batch_buffer-Contains capacity = record {
    filled = tt;
    count = refl;
    inside = omega arith;
    from = refl;
    to = refl;
  }

  Filled-update :
      (buf : ℕ → Option (OutputEventContext Event)) (i k : ℕ) (xs : List (OutputEventContext Event))
      (x : OutputEventContext Event)
      → k ≡ i + length xs
      → Filled buf i xs
      → Filled (update buf k (some x)) i (xs ++ (x ∷ []))
  Filled-update buf i k [] x e f =
      (ap (update buf k (some x)) (omega (arith, e)) ∙ update_self buf k (some x), tt)
  Filled-update buf i k (y ∷ xs) x e f = (
    update_ne buf (some x) (λ same. absurd (omega (arith, same, e))) ∙ f.0,
    Filled-update buf (i + 1) k xs x (omega (arith, e)) f.1,
  )

  last_offset-append :
      (o : Option Offset) (xs : List (OutputEventContext Event)) (x : OutputEventContext Event)
      → last_offset o (xs ++ (x ∷ [])) ≡ x.offset
  last_offset-append o [] x = refl
  last_offset-append o (y ∷ xs) x = last_offset-append y.offset xs x

  put-Contains :
      (x : OutputEventContext Event) (offset : Offset) (b : BatchBuffer Event)
      (xs : List (OutputEventContext Event))
      → x.offset ≡ some offset
      → b.size == b.cap ≡ false
      → Contains b xs
      → Contains (put x offset b) (xs ++ (x ∷ []))
  put-Contains x offset b xs e free c = record {
    filled = Filled-update b.buf 0 b.size xs x (omega (arith, c.count)) c.filled;
    count = omega (arith, c.count, length-append xs (x ∷ []));
    inside = ground (arith, free, c.inside);
    from = start xs c.count c.from;
    to = sym e ∙ sym (last_offset-append none xs x);
  }
    where
      start :
          (xs : List (OutputEventContext Event))
          → b.size ≡ length xs
          → b.first ≡ first_offset xs
          → (if b.size == 0 then some offset else b.first) ≡ first_offset (xs ++ (x ∷ []))
      start [] n f = let empty : b.size == 0 ≡ true = ground (arith, n) in rw empty (sym e)
      start (y ∷ xs) n f =
          let some_there : b.size == 0 ≡ false = ground (arith, n) in rw some_there f

  put_offset_cap :
      (o : Option Offset) (x : OutputEventContext Event) (b : BatchBuffer Event)
      → (put_offset o x b).cap ≡ b.cap
  put_offset_cap none x b = refl
  put_offset_cap (some offset) x b = refl

  pub add_cap : (x : OutputEventContext Event) (b : BatchBuffer Event) → (add x b).cap ≡ b.cap
  unfolding add
  add_cap x b = elim (Bool-cases (b.size == b.cap)) [
    | inl full ↦ ap (λ t. (if t then b else put_offset x.offset x b).cap) full
    | inr free ↦
        ap (λ t. (if t then b else put_offset x.offset x b).cap) free ∙ put_offset_cap x.offset x b
  ]

  -- Add puts an item with an offset behind the others while there is room, and the buffer's first
  -- and last offsets stay those of its ends; a full buffer, and an item without an offset, leave
  -- the buffer as it is.
  pub add-Contains :
      (x : OutputEventContext Event) (b : BatchBuffer Event) (xs : List (OutputEventContext Event))
      → Contains b xs
      → ((b.size < b.cap)
          × ((offset : Offset) × (x.offset ≡ some offset))
          × Contains (add x b) (xs ++ (x ∷ [])))
        ⊎ (((b.size ≡ b.cap) ⊎ (x.offset ≡ none)) × (add x b ≡ b))
  unfolding add
  add-Contains x b xs c = elim (Bool-cases (b.size == b.cap)) [
    | inl full ↦
        inr (inl (ground (arith, full)), ap (λ t. if t then b else put_offset x.offset x b) full)
    | inr free ↦ elim (Option-cases x.offset) [
      | inl nil ↦ inr (inr nil, behind free ∙ ap (λ o. put_offset o x b) nil)
      | inr (offset, e) ↦ inl (
        ground (arith, free, c.inside),
        (offset, e),
        subst (λ y. Contains y (xs ++ (x ∷ []))) (sym (behind free ∙ ap (λ o. put_offset o x b) e))
            (put-Contains x offset b xs e free c),
      )
    ]
  ]
    where
      behind : b.size == b.cap ≡ false → add x b ≡ put_offset x.offset x b
      behind free = ap (λ t. if t then b else put_offset x.offset x b) free
