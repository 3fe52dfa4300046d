-- ===== src/Processor.antt =====
-- internal/satellite/module/processor/processor.go: events pass the filters on their way to the
-- sender.
use skywalking_satellite.Base.{
  ℕ, ◌≡◌, refl, sym, ap, ◌∙◌, Option, some, List, [], ◌∷◌, ◌++◌, append_assoc, append-nil, update,
  update_self,
}
use skywalking_satellite.Queues.Api.{Offset, SequenceEvent}
use skywalking_satellite.Sender.Buffer.{OutputEventContext}

module _ {Event : Type 0} (name : Event → List ℕ) where
  -- The context of an event before the filters.
  unfoldable pub new_context : SequenceEvent Event → OutputEventContext Event
  new_context e = record { offset = some e.offset; context = (name e.event, e.event) ∷ [] }

  -- `for _, f := range p.runningFilters { f.Process(c) }`
  unfoldable pub process :
      List (OutputEventContext Event → OutputEventContext Event)
      → OutputEventContext Event
      → OutputEventContext Event
  process [] c = c
  process (f ∷ filters) c = process filters (f c)

  -- One event from the gatherer's output channel of a partition; `inputs` is what was sent on the
  -- sender's input channels.
  unfoldable pub on_output :
      List (OutputEventContext Event → OutputEventContext Event)
      → ℕ
      → SequenceEvent Event
      → (ℕ → List (OutputEventContext Event))
      → ℕ
      → List (OutputEventContext Event)
  on_output filters partition e inputs =
      update inputs partition (inputs partition ++ (process filters (new_context e) ∷ []))

  -- the routine of a partition on a sequence of events
  unfoldable pub process_partition :
      List (OutputEventContext Event → OutputEventContext Event)
      → ℕ
      → List (SequenceEvent Event)
      → (ℕ → List (OutputEventContext Event))
      → ℕ
      → List (OutputEventContext Event)
  process_partition filters partition [] inputs = inputs
  process_partition filters partition (e ∷ es) inputs =
      process_partition filters partition es (on_output filters partition e inputs)

  -- filters that leave the offset of a context
  abbrev pub KeepOffset : List (OutputEventContext Event → OutputEventContext Event) → Type 0
  KeepOffset [] = Unit {0}
  KeepOffset (f ∷ filters) =
      ((c : OutputEventContext Event) → (f c).offset ≡ c.offset) × KeepOffset filters

  process_offset :
      (filters : List (OutputEventContext Event → OutputEventContext Event))
      (c : OutputEventContext Event)
      → KeepOffset filters
      → (process filters c).offset ≡ c.offset
  unfolding process
  process_offset [] c k = refl
  process_offset (f ∷ filters) c k = process_offset filters (f c) k.1 ∙ k.0 c

  abbrev pub offsets : List (OutputEventContext Event) → List (Option Offset)
  offsets [] = []
  offsets (c ∷ cs) = c.offset ∷ offsets cs

  abbrev pub event_offsets : List (SequenceEvent Event) → List (Option Offset)
  event_offsets [] = []
  event_offsets (e ∷ es) = some e.offset ∷ event_offsets es

  pub offsets-append :
      (xs ys : List (OutputEventContext Event)) → offsets (xs ++ ys) ≡ offsets xs ++ offsets ys
  offsets-append [] ys = refl
  offsets-append (x ∷ xs) ys = ap (λ l. x.offset ∷ l) (offsets-append xs ys)

  -- The contexts of a partition reach the sender in the order of its events, one for each, and each
  -- with the offset of its event, when the filters leave the offsets.
  pub offsets-process_partition :
      (filters : List (OutputEventContext Event → OutputEventContext Event)) (partition : ℕ)
      (es : List (SequenceEvent Event)) (inputs : ℕ → List (OutputEventContext Event))
      → KeepOffset filters
      → offsets (process_partition filters partition es inputs partition)
        ≡ offsets (inputs partition) ++ event_offsets es
  unfolding process_partition on_output new_context
  offsets-process_partition filters partition [] inputs k =
      sym (append-nil (offsets (inputs partition)))
  offsets-process_partition filters partition (e ∷ es) inputs k =
      offsets-process_partition filters partition es (on_output filters partition e inputs) k
      ∙ ap (λ l. offsets l ++ event_offsets es)
          (update_self inputs partition
            (inputs partition ++ (process filters (new_context e) ∷ [])))
      ∙ ap (λ l. l ++ event_offsets es)
          (offsets-append (inputs partition) (process filters (new_context e) ∷ []))
      ∙ ap (λ o. (offsets (inputs partition) ++ (o ∷ [])) ++ event_offsets es)
          (process_offset filters (new_context e) k)
      ∙ append_assoc (offsets (inputs partition)) (some e.offset ∷ []) (event_offsets es)
