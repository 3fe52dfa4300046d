-- ===== src/Receivers/Conserve.antt =====
-- The messages of an access log stream on their way to the events.
use skywalking_satellite.Base.{
  ℕ, ◌≡◌, refl, sym, ap, ◌∙◌, Bool-cases, none, some, Option-cases, inl, inr, List, [], ◌∷◌, ◌++◌,
  map, append_assoc, append-nil, length, leb, Option, subst,
}
use skywalking_satellite.Receivers.Taken.{taken, flush-Alike, run-taken}
use skywalking_satellite.Receivers.Als.{
  running, refused, ended, message, limiter_flush, stop, Messages, Batch, event, Phase, Stream,
  flush_messages, flush, check, receive, on_message, running_only, StreamEvent, happen, run,
  new_stream, message, stop, ended,
}

none-ne-some : {A : Type 0} {a : A} → none ≡ some a → ⊥
none-ne-some h = cc

module _ {M I P : Type 0} (ops : Messages M I) (payload : M → P) where
  -- what the messages of the batches carry, in order
  abbrev pub carried : List (Batch M) → List P
  carried [] = []
  carried (event ms ∷ bs) = map payload ms ++ carried bs

  carried-append : (bs cs : List (Batch M)) → carried (bs ++ cs) ≡ carried bs ++ carried cs
  carried-append [] cs = refl
  carried-append (event ms ∷ bs) cs =
      ap (λ l. map payload ms ++ l) (carried-append bs cs)
      ∙ sym (append_assoc (map payload ms) (carried bs) (carried cs))

  map-append : (xs ys : List M) → map payload (xs ++ ys) ≡ map payload xs ++ map payload ys
  map-append [] ys = refl
  map-append (x ∷ xs) ys = ap (λ l. payload x ∷ l) (map-append xs ys)

  -- The messages can be unmarshalled.
  abbrev pub Reads : M → Type 0
  Reads m = (id : Option I) × (ops.unmarshal m ≡ some id)

  abbrev AllRead : List M → Type 0
  AllRead [] = Unit {0}
  AllRead (m ∷ ms) = Reads m × AllRead ms

  abbrev pub ReadEvents : List (StreamEvent M) → Type 0
  ReadEvents [] = Unit {0}
  ReadEvents (message m ∷ es) = Reads m × ReadEvents es
  ReadEvents (limiter_flush ∷ es) = ReadEvents es
  ReadEvents (stop ∷ es) = ReadEvents es

  AllRead-append : (ms : List M) (m : M) → AllRead ms → Reads m → AllRead (ms ++ (m ∷ []))
  AllRead-append [] m h r = (r, tt)
  AllRead-append (x ∷ ms) m h r = (h.0, AllRead-append ms m h.1 r)

  -- Everything that came in is in a batch or waits, and nothing waits before there is an identity.
  record Conserves (t : Stream M I) : Type 0 where
    kept : map payload t.received ≡ carried t.batches ++ map payload t.messages
    unnamed : t.identity ≡ none → t.messages ≡ []
    readable : AllRead t.messages

  module _ (same : (i : I) (m : M) → payload (ops.identify i m) ≡ payload m) where
    flush_messages-Conserves :
        (i : I) (ms : List M) (t : Stream M I)
        → t.messages ≡ ms
        → Conserves t
        → Conserves (flush_messages ops i ms t) × ((flush_messages ops i ms t).messages ≡ [])
    unfolding flush_messages
    flush_messages-Conserves i [] t e c = (c, e)
    flush_messages-Conserves i (m ∷ ms) t e c =
        let old : map payload t.received ≡ carried t.batches ++ map payload (m ∷ ms) =
          c.kept ∙ ap (λ l. carried t.batches ++ map payload l) e in
        elim (Option-cases (ops.unmarshal m)) [
          | inl unread ↦
              let (id, read) = (subst AllRead e c.readable).0 in
              absurd (none-ne-some (sym unread ∙ read))
          | inr (id, read) ↦
              rw (flush_messages, read)
                (
                  record {
                    kept =
                        old
                        ∙ ap (λ p. carried t.batches ++ (p ∷ map payload ms)) (sym (same i m))
                        ∙ sym (
                            grown (event (ops.identify i m ∷ ms))
                            ∙ ap (λ l. carried t.batches ++ l)
                                (append-nil (map payload (ops.identify i m ∷ ms))));
                    unnamed = λ n. refl;
                    readable = tt;
                  },
                  refl,
                )
        ]
      where
        grown :
            (b : Batch M)
            → carried (t.batches ++ (b ∷ [])) ++ [] ≡ carried t.batches ++ carried (b ∷ [])
        grown b = append-nil (carried (t.batches ++ (b ∷ []))) ∙ carried-append t.batches (b ∷ [])

    flush-Conserves :
        (t : Stream M I) → Conserves t → Conserves (flush ops t) × ((flush ops t).messages ≡ [])
    unfolding flush
    flush-Conserves t c = elim (Option-cases t.identity) [
      | inl unknown ↦ rw (flush, unknown) (c, c.unnamed unknown)
      | inr (i, known) ↦ rw (flush, known) (flush_messages-Conserves i t.messages t refl c)
    ]

    receive-Conserves :
        (limit_count : ℕ) (m : M) (t : Stream M I) {i : I}
        → t.identity ≡ some i
        → Reads m
        → Conserves t
        → Conserves (receive ops limit_count m t)
    unfolding receive check
    receive-Conserves limit_count m t known reads c =
        elim (Bool-cases (leb limit_count (length (t.messages ++ (m ∷ []))))) [
          | inl full ↦ rw full (record {
            kept = kept_more;
            unnamed = λ n. absurd (none-ne-some (sym n ∙ known));
            readable = AllRead-append t.messages m c.readable reads;
          })
          | inr room ↦ rw room (record {
            kept = kept_more;
            unnamed = λ n. absurd (none-ne-some (sym n ∙ known));
            readable = AllRead-append t.messages m c.readable reads;
          })
        ]
      where
        kept_more :
            map payload (t.received ++ (m ∷ []))
            ≡ carried t.batches ++ map payload (t.messages ++ (m ∷ []))
        kept_more =
            map-append t.received (m ∷ [])
            ∙ ap (λ l. l ++ (payload m ∷ [])) c.kept
            ∙ append_assoc (carried t.batches) (map payload t.messages) (payload m ∷ [])
            ∙ ap (λ l. carried t.batches ++ l) (sym (map-append t.messages (m ∷ [])))

    on_message-Conserves :
        (limit_count : ℕ) (m : M) (t : Stream M I)
        → Reads m
        → Conserves t
        → Conserves (on_message ops limit_count m t)
    unfolding on_message
    on_message-Conserves limit_count m t reads c = elim (Option-cases t.identity) [
      | inr (i, known) ↦ rw (on_message, known) (receive-Conserves limit_count m t known reads c)
      | inl unknown ↦ elim (Option-cases (ops.unmarshal m)) [
        | inl unread ↦
            rw (on_message, unknown, unread)
              (record { kept = c.kept; unnamed = c.unnamed; readable = c.readable })
        | inr (id, read) ↦ elim (Option-cases id) [
          | inl without ↦
              rw (on_message, unknown, read, without)
                (record { kept = c.kept; unnamed = c.unnamed; readable = c.readable })
          | inr (i, named) ↦
              rw (on_message, unknown, read, named)
                (receive-Conserves limit_count m (record t { identity = some i }) refl reads
                  (record {
                    kept = c.kept;
                    unnamed = λ n. c.unnamed unknown;
                    readable = c.readable;
                  }))
        ]
      ]
    ]

    running_only-Conserves :
        (p : Phase) (limit_count : ℕ) (m : M) (t : Stream M I)
        → Reads m
        → Conserves t
        → Conserves (running_only p (on_message ops limit_count m) t)
    unfolding running_only
    running_only-Conserves running limit_count m t reads c =
        on_message-Conserves limit_count m t reads c
    running_only-Conserves refused limit_count m t reads c = c
    running_only-Conserves ended limit_count m t reads c = c

    run-Conserves :
        (limit_count : ℕ) (es : List (StreamEvent M)) (t : Stream M I)
        → ReadEvents es
        → Conserves t
        → Conserves (run ops limit_count es t)
    unfolding run happen
    run-Conserves limit_count [] t reads c = c
    run-Conserves limit_count (message m ∷ es) t reads c =
        run-Conserves limit_count es (running_only t.phase (on_message ops limit_count m) t) reads.1
          (running_only-Conserves t.phase limit_count m t reads.0 c)
    run-Conserves limit_count (limiter_flush ∷ es) t reads c =
        run-Conserves limit_count es (flush ops t) reads (flush-Conserves t c).0
    run-Conserves limit_count (stop ∷ es) t reads c =
        let c' = (flush-Conserves t c).0 in
        run-Conserves limit_count es (record (flush ops t) { phase = ended }) reads
          (record { kept = c'.kept; unnamed = c'.unnamed; readable = c'.readable })

    -- However the messages and the flushes of the limiter interleave: a stream whose first message
    -- has an identifier takes in all its messages until it ends, and one whose first message has
    -- none takes in nothing; and after the last flush, the events that were sent carry what was
    -- taken in, all of it and in its order. The messages can be unmarshalled, and setting the
    -- identifier of a message leaves what it carries.
    pub run-carried :
        (limit_count : ℕ) (es : List (StreamEvent M))
        → ReadEvents es
        → ((happen ops limit_count stop (run ops limit_count es new_stream)).received
            ≡ taken ops limit_count es)
          × (map payload (happen ops limit_count stop (run ops limit_count es new_stream)).received
              ≡ carried (happen ops limit_count stop (run ops limit_count es new_stream)).batches)
    unfolding happen
    run-carried limit_count es reads =
        let t = run ops limit_count es new_stream in
        let (c, empty) = flush-Conserves t (
          run-Conserves limit_count es new_stream reads
            (record { kept = refl; unnamed = λ n. refl; readable = tt })) in
        (
          (flush-Alike ops limit_count t).0 ∙ run-taken ops limit_count es new_stream refl refl,
          c.kept
              ∙ ap (λ l. carried (flush ops t).batches ++ map payload l) empty
              ∙ append-nil (carried (flush ops t).batches),
        )
