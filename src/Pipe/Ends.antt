-- ===== src/Pipe/Ends.antt =====
-- The offsets at the ends of the batches of a sender, among those of the events of its partition.
use skywalking_satellite.Base.{
  ◌⊎◌, ℕ, ◌≡◌, refl, sym, ap, ap₂, ◌∙◌, Option, some, List, [], ◌∷◌, ◌++◌, inl, inr, subst,
}
use skywalking_satellite.Queues.Api.{Offset, SequenceEvent}
use skywalking_satellite.Sender.Buffer.{OutputEventContext, last_offset}
use skywalking_satellite.Sender.Store.Order.{with_offset, item_with, concat}
use skywalking_satellite.Processor.{offsets, event_offsets, offsets-append}

abbrev pub Among : Option Offset → List (Option Offset) → Type 0
Among o [] = ⊥
Among o (x ∷ xs) = (o ≡ x) ⊎ Among o xs

Among-left : (o : Option Offset) (xs ys : List (Option Offset)) → Among o xs → Among o (xs ++ ys)
Among-left o [] ys h = absurd h
Among-left o (x ∷ xs) ys (inl here) = inl here
Among-left o (x ∷ xs) ys (inr later) = inr (Among-left o xs ys later)

Among-right : (o : Option Offset) (xs ys : List (Option Offset)) → Among o ys → Among o (xs ++ ys)
Among-right o [] ys h = h
Among-right o (x ∷ xs) ys h = inr (Among-right o xs ys h)

abbrev pub last_of : Option Offset → List (Option Offset) → Option Offset
last_of d [] = d
last_of d (x ∷ xs) = last_of x xs

-- The offsets at the ends of the batches that hold something.
abbrev pub batch_ends :
    {Event : Type 0} → List (List (OutputEventContext Event)) → List (Option Offset)
batch_ends [] = []
batch_ends ([] ∷ xss) = batch_ends xss
batch_ends ((x ∷ xs) ∷ xss) = last_offset x.offset xs ∷ batch_ends xss

module _ {Event : Type 0} (name : Event → List ℕ) where
  last_offset-Among :
      (o : Option Offset) (xs : List (OutputEventContext Event))
      → Among (last_offset o xs) (o ∷ offsets name xs)
  last_offset-Among o [] = inl refl
  last_offset-Among o (x ∷ xs) = inr (last_offset-Among x.offset xs)

  pub batch_ends-Among :
      (xss : List (List (OutputEventContext Event))) (o : Option Offset)
      → Among o (batch_ends xss)
      → Among o (offsets name (concat xss))
  batch_ends-Among [] o h = absurd h
  batch_ends-Among ([] ∷ xss) o h = batch_ends-Among xss o h
  batch_ends-Among ((x ∷ xs) ∷ xss) o h =
      let front = offsets name (x ∷ xs) in
      let back = offsets name (concat xss) in
      subst (Among o) (sym (offsets-append name (x ∷ xs) (concat xss))) (elim h [
        | inl here ↦
            subst (λ z. Among z (front ++ back)) (sym here)
              (Among-left (last_offset x.offset xs) front back (last_offset-Among x.offset xs))
        | inr later ↦ Among-right o front back (batch_ends-Among xss o later)
      ])

  pub last_of-offsets :
      (o : Option Offset) (xs : List (OutputEventContext Event))
      → last_of o (offsets name xs) ≡ last_offset o xs
  last_of-offsets o [] = refl
  last_of-offsets o (x ∷ xs) = last_of-offsets x.offset xs

  last_offset-concat :
      (o : Option Offset) (xs ys : List (OutputEventContext Event))
      → last_offset o (xs ++ ys) ≡ last_offset (last_offset o xs) ys
  last_offset-concat o [] ys = refl
  last_offset-concat o (x ∷ xs) ys = last_offset-concat x.offset xs ys

  pub last_of-batch_ends :
      (o : Option Offset) (xss : List (List (OutputEventContext Event)))
      → last_of o (batch_ends xss) ≡ last_offset o (concat xss)
  last_of-batch_ends o [] = refl
  last_of-batch_ends o ([] ∷ xss) = last_of-batch_ends o xss
  last_of-batch_ends o ((x ∷ xs) ∷ xss) =
      last_of-batch_ends (last_offset x.offset xs) xss
      ∙ sym (last_offset-concat x.offset xs (concat xss))

  pub all_with_offset :
      (xs : List (OutputEventContext Event)) (es : List (SequenceEvent Event))
      → offsets name xs ≡ event_offsets name es
      → with_offset xs ≡ xs
  all_with_offset [] es h = refl
  all_with_offset (x ∷ xs) [] h = absurd cc
  all_with_offset (x ∷ xs) (e ∷ es) h =
      let head : x.offset ≡ some e.offset = cc in
      let tail : offsets name xs ≡ event_offsets name es = cc in
      ap (λ o. item_with o x ++ with_offset xs) head ∙ ap (λ l. x ∷ l) (all_with_offset xs es tail)

  pub split_events :
      (xs ys : List (OutputEventContext Event)) (es : List (SequenceEvent Event))
      → offsets name (xs ++ ys) ≡ event_offsets name es
      → (done : List (SequenceEvent Event)) × (waiting : List (SequenceEvent Event)) × (es
          ≡ done ++ waiting)
        × (offsets name xs ≡ event_offsets name done)
        × (offsets name ys ≡ event_offsets name waiting)
  split_events [] ys es h = ([], es, refl, refl, h)
  split_events (x ∷ xs) ys [] h = absurd cc
  split_events (x ∷ xs) ys (e ∷ es) h =
      let head : x.offset ≡ some e.offset = cc in
      let tail : offsets name (xs ++ ys) ≡ event_offsets name es = cc in
      let (done, waiting, all, front, back) = split_events xs ys es tail in
      (e ∷ done, waiting, ap (λ l. e ∷ l) all, ap₂ (λ o l. o ∷ l) head front, back)
