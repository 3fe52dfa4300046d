-- ===== src/Forwarders/Log.antt =====
-- plugins/forwarder/grpc/nativelog/forwarder.go, and nativeebpfaccesslog, which does the same: a
-- stream for every event, which is left at the first message that cannot be sent.
use skywalking_satellite.Base.{
  ℕ, ◌≡◌, refl, ◌∙◌, inl, inr, Bool, true, false, Bool-cases, Option, none, some, List, [], ◌∷◌,
  if◌then◌else◌, Option-cases, ◌+◌,
}
use skywalking_satellite.Forwarders.Net.{
  Net, open_stream, send_msg, close_and_recv, pending, close_and_recv-pending, send_msg-pending,
  open_stream-pending, refusals, close_and_recv-refusals, send_msg-refusals,
}

module _ {Event M : Type 0} (logs : Event → Option (List M)) where
  -- `logs` is the type assertion to the list of logs. The loop over the messages of an event.
  unfoldable pub send_logs : ℕ → List M → Net M → Net M
  send_logs s [] net = (close_and_recv s net).1
  send_logs s (m ∷ ms) net =
      let (fine, net') = send_msg s m net in
      let rest = send_logs s ms net' in if fine then rest else (close_and_recv s net').1

  -- Forward; the flag says that there is no error.
  unfoldable pub forward : List Event → Net M → Bool × Net M
  forward [] net = (true, net)
  forward (e ∷ batch) net = elim (logs e) [
    | none ↦ forward batch net
    | some ms ↦
        let (stream, net') = open_stream net in
        elim stream [ none ↦ (false, net') | some s ↦ forward batch (send_logs s ms net') ]
  ]

  send_logs-pending :
      (s : ℕ) (ms : List M) (net : Net M) (ts : List ℕ)
      → pending net ≡ s ∷ ts
      → pending (send_logs s ms net) ≡ ts
  unfolding send_logs
  send_logs-pending s [] net ts e = close_and_recv-pending s net ts e
  send_logs-pending s (m ∷ ms) net ts e = elim (Bool-cases (send_msg s m net).0) [
    | inl fine ↦
        rw fine (send_logs-pending s ms (send_msg s m net).1 ts (send_msg-pending s m net ∙ e))
    | inr bad ↦
        rw bad (close_and_recv-pending s (send_msg s m net).1 ts (send_msg-pending s m net ∙ e))
  ]

  -- Whatever calls fail: after a batch the streams that are open are those that were open before it.
  pub forward-pending :
      (batch : List Event) (net : Net M) → pending (forward batch net).1 ≡ pending net
  unfolding forward
  forward-pending [] net = refl
  forward-pending (e ∷ batch) net = elim (Option-cases (logs e)) [
    | inl none_here ↦ rw (forward, none_here) (forward-pending batch net)
    | inr (ms, here) ↦ elim (open_stream-pending net) [
      | inl (s, opens, p, q) ↦
          rw (forward, here, opens)
            (forward-pending batch (send_logs s ms (open_stream net).1)
              ∙ send_logs-pending s ms (open_stream net).1 (pending net) p)
      | inr (refuses, p, q) ↦ rw (forward, here, refuses) p
    ]
  ]

  send_logs-refusals :
      (s : ℕ) (ms : List M) (net : Net M) → refusals (send_logs s ms net).log ≡ refusals net.log
  unfolding send_logs
  send_logs-refusals s [] net = close_and_recv-refusals s net
  send_logs-refusals s (m ∷ ms) net = elim (Bool-cases (send_msg s m net).0) [
    | inl fine ↦ rw fine (send_logs-refusals s ms (send_msg s m net).1 ∙ send_msg-refusals s m net)
    | inr bad ↦ rw bad (close_and_recv-refusals s (send_msg s m net).1 ∙ send_msg-refusals s m net)
  ]

  -- Forward of the log forwarder answers an error exactly when a stream could not be opened, and
  -- then stops there: at most one is refused. The messages that could not be sent are not reported.
  pub forward-refusals :
      (batch : List Event) (net : Net M)
      → refusals (forward batch net).1.log
        ≡ (if (forward batch net).0 then refusals net.log else refusals net.log + 1)
  unfolding forward
  forward-refusals [] net = refl
  forward-refusals (e ∷ batch) net = elim (Option-cases (logs e)) [
    | inl none_here ↦ rw (forward, none_here) (forward-refusals batch net)
    | inr (ms, here) ↦ elim (open_stream-pending net) [
      | inl (s, opens, p, q) ↦
          let same : refusals (send_logs s ms (open_stream net).1).log ≡ refusals net.log =
            send_logs-refusals s ms (open_stream net).1 ∙ q in
          rw (forward, here, opens)
            (rw same at (forward-refusals batch (send_logs s ms (open_stream net).1)))
      | inr (refuses, p, q) ↦ rw (forward, here, refuses) q
    ]
  ]
