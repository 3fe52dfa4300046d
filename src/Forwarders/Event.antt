-- ===== src/Forwarders/Event.antt =====
-- plugins/forwarder/grpc/nativeevent/sync_forwarder.go: one stream for the whole batch.
use skywalking_satellite.Base.{
  ℕ, ◌≡◌, refl, sym, ap, ◌∙◌, Bool, false, Bool-cases, Option, none, some, Option-cases, List, [],
  ◌∷◌, if◌then◌else◌, inl, inr,
}
use skywalking_satellite.Forwarders.Net.{
  Net, open_stream, send_msg, close_and_recv, pending, open_stream-pending, close_and_recv-pending,
  send_msg-pending,
}

some_injective : {a b : ℕ} → some a ≡ some b → a ≡ b
some_injective h = cc

none-ne-some : {a : ℕ} → none ≡ some a → ⊥
none-ne-some h = cc

module _ {E M : Type 0} (event : E → Option M) where
  -- `event` is the type assertion to an event. After a message that cannot be sent the error is replaced
  -- by that of the closing.
  unfoldable pub send_events : ℕ → List E → Net M → Bool × Net M
  send_events s [] net = close_and_recv s net
  send_events s (e ∷ batch) net = elim (event e) [
    | none ↦ send_events s batch net
    | some m ↦
        let (fine, net') = send_msg s m net in
        let rest = send_events s batch net' in if fine then rest else close_and_recv s net'
  ]

  -- Forward; the flag says that there is no error.
  unfoldable pub forward : List E → Net M → Bool × Net M
  forward batch net =
      let (stream, net') = open_stream net in
      elim stream [ none ↦ (false, net') | some s ↦ send_events s batch net' ]

  -- What Forward did before it closed the stream that it had opened.
  abbrev pub ClosedLast : Net M → ℕ → Bool × Net M → Type 0
  ClosedLast net s r = (n : Net M) × (r ≡ close_and_recv s n) × (pending n ≡ s ∷ pending net)

  send_events-ClosedLast :
      (start : Net M) (s : ℕ) (batch : List E) (net : Net M)
      → pending net ≡ s ∷ pending start
      → ClosedLast start s (send_events s batch net)
  unfolding send_events
  send_events-ClosedLast start s [] net h = (net, refl, h)
  send_events-ClosedLast start s (e ∷ batch) net h = elim (Option-cases (event e)) [
    | inl other ↦
        let (n, same, p) = send_events-ClosedLast start s batch net h in
        (n, rw (send_events, other) same, p)
    | inr (m, here) ↦
        let h' = send_msg-pending s m net ∙ h in
        elim (Bool-cases (send_msg s m net).0) [
          | inl fine ↦
              let (n, same, p) = send_events-ClosedLast start s batch (send_msg s m net).1 h' in
              (n, rw (send_events, here, fine) same, p)
          | inr bad ↦ ((send_msg s m net).1, rw (send_events, here, bad), h')
        ]
  ]

  -- When the stream can be opened, the answer of Forward of the event forwarder is that of closing
  -- it, whether or not every event could be sent; and the streams that are open afterwards are
  -- those that were open before.
  pub forward-ClosedLast :
      (batch : List E) (net : Net M) (s : ℕ)
      → (open_stream net).0 ≡ some s
      → ClosedLast net s (forward batch net) × (pending (forward batch net).1 ≡ pending net)
  unfolding forward
  forward-ClosedLast batch net s h = elim (open_stream-pending net) [
    | inl (t, opens, p, q) ↦
        let start : pending (open_stream net).1 ≡ s ∷ pending net =
          p ∙ ap (λ k. k ∷ pending net) (some_injective (sym opens ∙ h)) in
        let (n, same, p') = send_events-ClosedLast net s batch (open_stream net).1 start in
        rw (forward, h)
          (
            (n, same, p'),
            ap (λ (r : Bool × Net M). pending r.1) same
                ∙ close_and_recv-pending s n (pending net) p',
          )
    | inr (refuses, p, q) ↦ absurd (none-ne-some (sym refuses ∙ h))
  ]
