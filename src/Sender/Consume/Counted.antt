-- ===== src/Sender/Consume/Counted.antt =====
-- How consume of internal/satellite/module/sender/sender.go counts the events of a batch.
use skywalking_satellite.Base.{
  inl, inr, ==_iff, ℕ, ◌+◌, ◌≡◌, ap, ◌∙◌, Bool, Bool-cases, List, [], ◌∷◌, length, update, ◌==◌,
  if◌then◌else◌, arith, inl, ==_iff, inr, ◌*◌, false,
}
use skywalking_satellite.Sender.Consume.{
  Forwarder, Fallbacker, Sending, forward_type_events, forward_events, forward_all,
}

module _ {Event : Type 0} (kind : Event → ℕ) (remote : Event → Bool) where
  module _ {World : Type 0} (fall_back : Fallbacker Event World) where
    -- how many forwarders there are of a type
    abbrev pub copies : ℕ → List (Forwarder Event World) → ℕ
    copies t [] = 0
    copies t (f ∷ fs) = (if f.forward_type == t then 1 else 0) + copies t fs

    abbrev pub counted : ℕ → Sending World → ℕ
    counted t s = s.success t + s.failure t

    bump : (g : ℕ → ℕ) (i n t : ℕ) → update g i (g i + n) t ≡ g t + (if i == t then 1 else 0) * n
    bump g i n t = elim (Bool-cases (i == t)) [
      | inl same ↦ rw same (ap (λ k. g k + n) ((==_iff i t).0 same) ∙ omega arith)
      | inr other ↦ rw other (omega arith)
    ]

    forward_type_events-counted :
        ((b : List Event) (g : List Event → World → Bool × World) (w : World)
          → (fall_back b g w).0 ≡ false)
        → (f : Forwarder Event World) (batch : List Event) (s : Sending World) (t : ℕ)
        → counted t (forward_type_events kind remote fall_back f batch s)
          ≡ counted t s + (if f.forward_type == t then 1 else 0) * length batch
    unfolding forward_type_events forward_events
    forward_type_events-counted gives_up f [] s t = omega arith
    forward_type_events-counted gives_up f (e ∷ batch) s t =
        elim (Bool-cases (f.forward (e ∷ batch) s.world).0) [
          | inl sent ↦ rw sent (omega (arith, bump s.success f.forward_type (length (e ∷ batch)) t))
          | inr not_sent ↦
              rw (not_sent, gives_up (e ∷ batch) f.forward (f.forward (e ∷ batch) s.world).1)
                (omega (arith, bump s.failure f.forward_type (length (e ∷ batch)) t))
        ]

    -- When the fallback gives up, every remote event of the batch is counted for every forwarder of
    -- its type, as sent or as failed.
    pub forward_all-counted :
        ((b : List Event) (g : List Event → World → Bool × World) (w : World)
          → (fall_back b g w).0 ≡ false)
        → (fs : List (Forwarder Event World)) (events : ℕ → List Event) (s : Sending World) (t : ℕ)
        → counted t (forward_all kind remote fall_back fs events s)
          ≡ counted t s + copies t fs * length (events t)
    unfolding forward_all
    forward_all-counted gives_up [] events s t = omega arith
    forward_all-counted gives_up (f ∷ fs) events s t =
        forward_all-counted gives_up fs events
          (forward_type_events kind remote fall_back f (events f.forward_type) s) t
        ∙ ap (λ n. n + copies t fs * length (events t))
            (forward_type_events-counted gives_up f (events f.forward_type) s t)
        ∙ ap (λ n. counted t s + n + copies t fs * length (events t)) same_type
        ∙ grind arith
      where
        same_type :
            (if f.forward_type == t then 1 else 0) * length (events f.forward_type)
            ≡ (if f.forward_type == t then 1 else 0) * length (events t)
        same_type = elim (Bool-cases (f.forward_type == t)) [
          | inl same ↦ rw same (ap (λ k. 1 * length (events k)) ((==_iff f.forward_type t).0 same))
          | inr other ↦ rw other (omega arith)
        ]
