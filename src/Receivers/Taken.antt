-- ===== src/Receivers/Taken.antt =====
-- Which messages the receiver of plugins/receiver/grpc/envoyalsv2/als_service.go takes in.
use skywalking_satellite.Base.{
  ℕ, ◌≡◌, refl, sym, ap, ◌∙◌, ◌⊎◌, inl, inr, Bool-cases, Option, none, some, Option-cases, List, [],
  ◌∷◌, ◌++◌, append_assoc, append-nil, length, leb,
}
use skywalking_satellite.Receivers.Als.{
  running, refused, ended, message, limiter_flush, stop, Messages, Stream, flush_messages, flush,
  check, receive, on_message, running_only, StreamEvent, happen, run,
}

module _ {M I : Type 0} (ops : Messages M I) (limit_count : ℕ) where
  -- the messages until the stream ends
  abbrev pub until_stop : List (StreamEvent M) → List M
  until_stop [] = []
  until_stop (message m ∷ es) = m ∷ until_stop es
  until_stop (limiter_flush ∷ es) = until_stop es
  until_stop (stop ∷ es) = []

  -- All of them, if the first one has an identifier, and otherwise none.
  abbrev pub taken_first : Option (Option I) → M → List (StreamEvent M) → List M
  taken_first none m es = []
  taken_first (some none) m es = []
  taken_first (some (some i)) m es = m ∷ until_stop es

  abbrev pub taken : List (StreamEvent M) → List M
  taken [] = []
  taken (message m ∷ es) = taken_first (ops.unmarshal m) m es
  taken (limiter_flush ∷ es) = taken es
  taken (stop ∷ es) = []

  -- A flush leaves these as they are.
  abbrev Alike : Stream M I → Stream M I → Type 0
  Alike t u = (u.received ≡ t.received) × (u.phase ≡ t.phase) × (u.identity ≡ t.identity)

  flush_messages-Alike :
      (i : I) (ms : List M) (t : Stream M I) → Alike t (flush_messages ops i ms t)
  unfolding flush_messages
  flush_messages-Alike i [] t = (refl, refl, refl)
  flush_messages-Alike i (m ∷ ms) t = elim (Option-cases (ops.unmarshal m)) [
    | inl unread ↦ rw (flush_messages, unread) (refl, refl, refl)
    | inr (id, read) ↦ rw (flush_messages, read) (refl, refl, refl)
  ]

  pub flush-Alike : (t : Stream M I) → Alike t (flush ops t)
  unfolding flush
  flush-Alike t = elim (Option-cases t.identity) [
    | inl unknown ↦ rw (flush, unknown) (refl, refl, unknown)
    | inr (i, known) ↦
        let (a, b, c) = flush_messages-Alike i t.messages t in rw (flush, known) (a, b, c ∙ known)
  ]

  receive_lem :
      (m : M) (t : Stream M I)
      → ((receive ops limit_count m t).received ≡ t.received ++ (m ∷ []))
        × ((receive ops limit_count m t).phase ≡ t.phase)
        × ((receive ops limit_count m t).identity ≡ t.identity)
  unfolding receive check
  receive_lem m t = elim (Bool-cases (leb limit_count (length (t.messages ++ (m ∷ []))))) [
    | inl full ↦ rw full (refl, refl, refl)
    | inr room ↦ rw room (refl, refl, refl)
  ]

  happen-closed :
      (m : M) (t : Stream M I)
      → (t.phase ≡ refused) ⊎ (t.phase ≡ ended)
      → happen ops limit_count (message m) t ≡ t
  unfolding happen running_only
  happen-closed m t (inl r) = ap (λ p. running_only p (on_message ops limit_count m) t) r
  happen-closed m t (inr e) = ap (λ p. running_only p (on_message ops limit_count m) t) e

  happen-running :
      (m : M) (t : Stream M I) {u : Stream M I}
      → t.phase ≡ running
      → on_message ops limit_count m t ≡ u
      → happen ops limit_count (message m) t ≡ u
  unfolding happen running_only
  happen-running m t r e = ap (λ p. running_only p (on_message ops limit_count m) t) r ∙ e

  on_message-named :
      (i : I) (m : M) (t : Stream M I)
      → t.identity ≡ some i
      → on_message ops limit_count m t ≡ receive ops limit_count m t
  unfolding on_message
  on_message-named i m t n =
      rw (on_message, n) (ap (λ o. receive ops limit_count m (record t { identity = o })) n)

  -- A stream that was left takes nothing more.
  run-closed :
      (es : List (StreamEvent M)) (t : Stream M I)
      → (t.phase ≡ refused) ⊎ (t.phase ≡ ended)
      → (run ops limit_count es t).received ≡ t.received
  unfolding run happen
  run-closed [] t closed = refl
  run-closed (message m ∷ es) t closed =
      ap (λ u. (run ops limit_count es u).received) (happen-closed m t closed)
      ∙ run-closed es t closed
  run-closed (limiter_flush ∷ es) t closed =
      let (a, b, c) = flush-Alike t in
      run-closed es (flush ops t) (elim closed [ inl r ↦ inl (b ∙ r) | inr e ↦ inr (b ∙ e) ]) ∙ a
  run-closed (stop ∷ es) t closed =
      let (a, b, c) = flush-Alike t in
      run-closed es (record (flush ops t) { phase = ended }) (inr refl) ∙ a

  run-stopped :
      (es : List (StreamEvent M)) (t : Stream M I)
      → (run ops limit_count (stop ∷ es) t).received ≡ t.received ++ []
  unfolding run happen
  run-stopped es t =
      let (a, b, c) = flush-Alike t in
      run-closed es (record (flush ops t) { phase = ended }) (inr refl)
      ∙ a
      ∙ sym (append-nil t.received)

  run-named :
      (i : I) (es : List (StreamEvent M)) (t : Stream M I)
      → t.phase ≡ running
      → t.identity ≡ some i
      → (run ops limit_count es t).received ≡ t.received ++ until_stop es
  unfolding run happen
  run-named i [] t r n = sym (append-nil t.received)
  run-named i (message m ∷ es) t r n =
      let (a, b, c) = receive_lem m t in
      ap (λ u. (run ops limit_count es u).received)
        (happen-running m t r (on_message-named i m t n))
      ∙ run-named i es (receive ops limit_count m t) (b ∙ r) (c ∙ n)
      ∙ ap (λ l. l ++ until_stop es) a
      ∙ append_assoc t.received (m ∷ []) (until_stop es)
  run-named i (limiter_flush ∷ es) t r n =
      let (a, b, c) = flush-Alike t in
      run-named i es (flush ops t) (b ∙ r) (c ∙ n) ∙ ap (λ l. l ++ until_stop es) a
  run-named i (stop ∷ es) t r n = run-stopped es t

  -- The first message.
  run-first :
      (read : Option (Option I)) (m : M) (es : List (StreamEvent M)) (t : Stream M I)
      → t.phase ≡ running
      → t.identity ≡ none
      → ops.unmarshal m ≡ read
      → (run ops limit_count es (happen ops limit_count (message m) t)).received
        ≡ t.received ++ taken_first read m es
  unfolding on_message
  run-first none m es t r n unread =
      ap (λ u. (run ops limit_count es u).received)
        (happen-running m t {u = record t { phase = refused }} r
          (rw (on_message, n, unread) (ap (λ o. record t { identity = o; phase = refused }) n)))
      ∙ run-closed es (record t { phase = refused }) (inl refl)
      ∙ sym (append-nil t.received)
  run-first (some none) m es t r n without =
      ap (λ u. (run ops limit_count es u).received)
        (happen-running m t {u = record t { phase = refused }} r
          (rw (on_message, n, without) (ap (λ o. record t { identity = o; phase = refused }) n)))
      ∙ run-closed es (record t { phase = refused }) (inl refl)
      ∙ sym (append-nil t.received)
  run-first (some (some i)) m es t r n named =
      let v : Stream M I = record t { identity = some i } in
      let (a, b, c) = receive_lem m v in
      ap (λ u. (run ops limit_count es u).received)
        (happen-running m t {u = receive ops limit_count m v} r (rw (on_message, n, named) refl))
      ∙ run-named i es (receive ops limit_count m v) (b ∙ r) c
      ∙ ap (λ l. l ++ until_stop es) a
      ∙ append_assoc t.received (m ∷ []) (until_stop es)

  pub run-taken :
      (es : List (StreamEvent M)) (t : Stream M I)
      → t.phase ≡ running
      → t.identity ≡ none
      → (run ops limit_count es t).received ≡ t.received ++ taken es
  unfolding run happen
  run-taken [] t r n = sym (append-nil t.received)
  run-taken (message m ∷ es) t r n = run-first (ops.unmarshal m) m es t r n refl
  run-taken (limiter_flush ∷ es) t r n =
      let (a, b, c) = flush-Alike t in
      run-taken es (flush ops t) (b ∙ r) (c ∙ n) ∙ ap (λ l. l ++ taken es) a
  run-taken (stop ∷ es) t r n = run-stopped es t
