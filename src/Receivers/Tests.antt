-- ===== src/Receivers/Tests.antt =====
-- Streams that end well and streams that fail.
use skywalking_satellite.Base.{
  ℕ, ◌≡◌, refl, Option, none, some, List, [], ◌∷◌, map, ◌≤◌, ◌+◌, ◌⊎◌, ◌<◌, ◌*◌, arith,
}
use skywalking_satellite.Receivers.Taken.{taken}
use skywalking_satellite.Receivers.Als.{
  Messages, StreamEvent, message, limiter_flush, stop, happen, run, new_stream,
}
use skywalking_satellite.Receivers.Limiter.{
  receiving, checking, asking, checked, Backlog, check, put_message, no_message, waiting-bounds,
  came, opened,
}
use skywalking_satellite.Receivers.Conserve.{carried, run-carried}

abbrev numbers : List ℕ
numbers = 1 ∷ 2 ∷ []

-- messages that are a number with an optional identifier
abbrev pairs : Messages (ℕ × Option ℕ) ℕ
pairs = record { unmarshal = λ m. some m.1; identify = λ i m. (m.0, some i) }

abbrev happened : List (StreamEvent (ℕ × Option ℕ))
happened = message (1, some 9) ∷ message (2, none) ∷ limiter_flush ∷ message (3, none) ∷ []

run-carried_example :
    ((happen pairs 2 stop (run pairs 2 happened new_stream)).received ≡ taken pairs 2 happened)
    × (map
          (λ (m : ℕ × Option ℕ). m.0)
          (happen pairs 2 stop (run pairs 2 happened new_stream)).received
        ≡ carried pairs
            (λ (m : ℕ × Option ℕ). m.0)
            (happen pairs 2 stop (run pairs 2 happened new_stream)).batches)
run-carried_example =
    run-carried pairs (λ (m : ℕ × Option ℕ). m.0) (λ i m. refl) 2 happened
      ((some 9, refl), ((none, refl), ((none, refl), tt)))

-- One message with the limit count one, so that Check asks for a flush.
abbrev held_one : Backlog
held_one = check 1 (put_message no_message)

waiting-bounds_example :
    (held_one.waiting ≤ 1 + 1)
    × ((held_one.receiver ≡ checking)
        ⊎ (held_one.receiver ≡ asking)
        ⊎ ((held_one.receiver ≡ receiving) × (held_one.waiting ≤ 1) × (held_one.waiting < 1 * 2)))
unfolding put_message
waiting-bounds_example = waiting-bounds 1 held_one (omega arith) (checked (came opened refl) refl)
