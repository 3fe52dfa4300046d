-- ===== src/Sender/Shutdown/Finish.antt =====
-- What shutdown0 of internal/satellite/module/sender/sender.go comes to when it is finished.
use skywalking_satellite.Base.{
  ℕ, ◌+◌, ◌*◌, ◌≡◌, refl, sym, ap, ◌∙◌, Bool, true, false, Bool-cases, some, List, [], ◌∷◌, length,
  ◌==◌, ==_iff, if◌then◌else◌, arith, inl, inr, subst,
}
use skywalking_satellite.Sender.Buffer.{OutputEventContext, BatchBuffer, Contains}
use skywalking_satellite.Sender.Consume.{Sending, consume, consume-ByType, of_items}
use skywalking_satellite.Sender.Consume.Counted.{copies, counted, forward_all-counted}
use skywalking_satellite.Sender.Shutdown.{
  Sender, Closing, partitions, has, remove, on_batch, shutdown0, shutdown, run_routine, on_ticker,
  run_loop, Run, begun, consumed, fired, looped,
}

module _ {Event World : Type 0} (c : Sender Event World) where
  open c use {kind, remote, fall_back, forwarders, ack, count, buffers}

  abbrev pub sum : (ℕ → ℕ) → List ℕ → ℕ
  sum f [] = 0
  sum f (p ∷ ps) = f p + sum f ps

  sum-remove :
      (f : ℕ → ℕ) (p : ℕ) (l : List ℕ) → has p l ≡ true → sum f (remove p l) + f p ≡ sum f l
  unfolding has remove
  sum-remove f p [] h = cc
  sum-remove f p (q ∷ qs) h = elim (Bool-cases (q == p)) [
    | inl same ↦ rw same (ap (λ k. sum f qs + f k) (sym ((==_iff q p).0 same)) ∙ omega arith)
    | inr other ↦
        let step = sum-remove f p qs (sym (rw other refl) ∙ h) in rw other (omega (arith, step))
  ]

  -- What every forwarder is due of one type, for a buffer with these items.
  abbrev pub due : (ℕ → List (OutputEventContext Event)) → ℕ → ℕ → ℕ
  due items t p =
      copies kind remote fall_back t forwarders * length (of_items kind remote t (items p))

  module _
      (gives_up : (b : List Event) (g : List Event → World → Bool × World) (w : World)
        → (fall_back b g w).0 ≡ false)
      (items : ℕ → List (OutputEventContext Event))
      (hold : (p : ℕ) → Contains (buffers p) (items p)) where
    -- Consuming a batch does not panic, and counts what is due for its items.
    consume-counted :
        (b : BatchBuffer Event) (xs : List (OutputEventContext Event)) (s : Sending World)
        → Contains b xs
        → (r : Sending World) × (consume kind remote fall_back forwarders ack b s ≡ some r)
          × ((t : ℕ)
              → counted kind remote fall_back t r
                ≡ counted kind remote fall_back t s
                  + copies kind remote fall_back t forwarders * length (of_items kind remote t xs))
    unfolding consume
    consume-counted b [] s c =
        let nothing : b.size == 0 ≡ true = (==_iff b.size 0).1 c.count in
        (s, rw nothing refl, λ t. omega arith)
    consume-counted b (x ∷ xs) s c =
        let done = consume-ByType kind remote fall_back forwarders ack b x xs s c in
        (
          _,
          done.acknowledged,
          λ t.
              forward_all-counted kind remote fall_back gives_up forwarders done.events s t
              ∙ ap
                  (λ l.
                    counted kind remote fall_back t s
                    + copies kind remote fall_back t forwarders * length l)
                  (done.by_type t),
        )

    -- What a step of one partition leaves.
    on_batch-counted :
        (p : ℕ) (s : Closing World)
        → (r : Sending World) × (on_batch c (buffers p) s ≡ some (record s { sending = r }))
          × ((t : ℕ)
              → counted kind remote fall_back t r
                ≡ counted kind remote fall_back t s.sending + due items t p)
    unfolding on_batch
    on_batch-counted p s =
        let (r, got, more) = consume-counted (buffers p) (items p) s.sending (hold p) in
        (r, rw (on_batch, got) refl, more)

    -- What is counted and what is still to do are together what there was, once, and once more
    -- when the ticker fired.
    abbrev pub Balanced : Closing World → Closing World → Type 0
    Balanced start s =
        (t : ℕ)
        → counted kind remote fall_back t s.sending
            + sum (due items t) s.waiting
            + sum (due items t) s.looping
          ≡ counted kind remote fall_back t start.sending
            + (if s.timed_out
                then sum (due items t) (partitions count) + sum (due items t) (partitions count)
                else sum (due items t) (partitions count))

    run_routine_lem :
        (start s : Closing World) (p : ℕ)
        → has p s.waiting ≡ true
        → Balanced start s
        → (u : Closing World) × (run_routine c p s ≡ some u)
          × Balanced start u
          × (u.waiting ≡ remove p s.waiting)
          × (u.looping ≡ s.looping)
          × (u.timed_out ≡ s.timed_out)
    unfolding run_routine
    run_routine_lem start s p there balanced =
        let (r, got, more) = on_batch-counted p s in
        (
          record s { sending = r; waiting = remove p s.waiting },
          rw (run_routine, got) refl,
          λ t. omega (arith, more t, balanced t, sum-remove (due items t) p s.waiting there),
          refl,
          refl,
          refl,
        )

    run_loop_lem :
        (start s : Closing World) (p : ℕ) (ps : List ℕ)
        → s.looping ≡ p ∷ ps
        → Balanced start s
        → (u : Closing World) × (run_loop c p ps s ≡ some u)
          × Balanced start u
          × (u.waiting ≡ s.waiting)
          × (u.looping ≡ ps)
          × (u.timed_out ≡ s.timed_out)
    unfolding run_loop
    run_loop_lem start s p ps there balanced =
        let (r, got, more) = on_batch-counted p s in
        (
          record s { sending = r; looping = ps },
          rw (run_loop, got) refl,
          λ t. omega (arith, more t, balanced t, ap (sum (due items t)) there),
          refl,
          refl,
          refl,
        )

    no_cons : {p : ℕ} {ps : List ℕ} → (p ∷ ps ≡ []) → ⊥
    no_cons e = cc

    same_result : {s t : Closing World} → some s ≡ some t → s ≡ t
    same_result e = cc

    abbrev pub InStep : Closing World → Closing World → Type 0
    InStep start s = Balanced start s × (s.timed_out ≡ false → s.looping ≡ [])

    shutdown0-InStep :
        (start : Closing World)
        → start.looping ≡ []
        → start.timed_out ≡ false
        → InStep start (shutdown0 c (record start { shutdown_once = true }))
    unfolding shutdown0
    shutdown0-InStep start idle quiet = (λ t. rw (idle, quiet) (omega arith), λ still. idle)

    on_ticker-InStep :
        (start s : Closing World)
        → s.timed_out ≡ false
        → InStep start s
        → InStep start (on_ticker c s)
    unfolding on_ticker
    on_ticker-InStep start s not_yet (balanced, early) = (
      λ t.
          let before = ap (sum (due items t)) (early not_yet) in
          let once = rw not_yet at balanced t in omega (arith, before, once),
      λ never. absurd cc,
    )

    shutdown-fresh :
        (start : Closing World)
        → start.shutdown_once ≡ false
        → shutdown c start ≡ shutdown0 c (record start { shutdown_once = true })
    unfolding shutdown
    shutdown-fresh start fresh = rw fresh refl

    Run-InStep :
        (start s : Closing World)
        → start.shutdown_once ≡ false
        → start.looping ≡ []
        → start.timed_out ≡ false
        → Run c start s
        → InStep start s
    Run-InStep start s fresh idle quiet begun =
        subst (InStep start) (sym (shutdown-fresh start fresh)) (shutdown0-InStep start idle quiet)
    Run-InStep start s fresh idle quiet (consumed {s = b} p run there step) =
        let (balanced, early) = Run-InStep start b fresh idle quiet run in
        let (u, got, balanced', waits, loops, out) = run_routine_lem start b p there balanced in
        subst (InStep start) (same_result (sym got ∙ step))
          (balanced', λ still. loops ∙ early (sym out ∙ still))
    Run-InStep start s fresh idle quiet (fired {s = b} run not_yet) =
        on_ticker-InStep start b not_yet (Run-InStep start b fresh idle quiet run)
    Run-InStep start s fresh idle quiet (looped {s = b} p ps run there step) =
        let (balanced, early) = Run-InStep start b fresh idle quiet run in
        let (u, got, balanced', waits, loops, out) = run_loop_lem start b p ps there balanced in
        subst (InStep start) (same_result (sym got ∙ step))
          (balanced', λ still. absurd (no_cons (sym there ∙ early (sym out ∙ still))))

    -- A state with nothing left to consume, reached without another firing.
    abbrev pub Finished : Closing World → Closing World → Closing World → Type 0
    Finished start s u =
        Run c start u × (u.waiting ≡ []) × (u.looping ≡ []) × (u.timed_out ≡ s.timed_out)

    has_first : (p : ℕ) (ps : List ℕ) → (has p (p ∷ ps) ≡ true) × (remove p (p ∷ ps) ≡ ps)
    unfolding has remove
    has_first p ps = let same = (==_iff p p).1 refl in (rw same refl, rw same refl)

    module _ (start : Closing World) (fresh : start.shutdown_once ≡ false)
        (idle : start.looping ≡ []) (quiet : start.timed_out ≡ false) where
      drain_waiting :
          (left : List ℕ) (s : Closing World)
          → s.waiting ≡ left
          → s.looping ≡ []
          → Run c start s
          → (u : Closing World) × Finished start s u
      drain_waiting [] s e none_left run = (s, (run, e, none_left, refl))
      drain_waiting (p ∷ ps) s e none_left run =
          let there = ap (has p) e ∙ (has_first p ps).0 in
          let (balanced, early) = Run-InStep start s fresh idle quiet run in
          let (u, got, balanced', waits, loops, out) = run_routine_lem start s p there balanced in
          let (v, (done, w, l, same)) =
            drain_waiting ps u (waits ∙ ap (remove p) e ∙ (has_first p ps).1) (loops ∙ none_left)
              (consumed p run there got) in
          (v, (done, w, l, same ∙ out))

      drain_looping :
          (left : List ℕ) (s : Closing World)
          → s.looping ≡ left
          → Run c start s
          → (u : Closing World) × Finished start s u
      drain_looping [] s e run = drain_waiting s.waiting s refl e run
      drain_looping (p ∷ ps) s e run =
          let (balanced, early) = Run-InStep start s fresh idle quiet run in
          let (u, got, balanced', waits, loops, out) = run_loop_lem start s p ps e balanced in
          let (v, (done, w, l, same)) = drain_looping ps u loops (looped p ps run e got) in
          (v, (done, w, l, same ∙ out))

      -- From wherever a shutdown has got to, it can be finished: no batch panics, and a state
      -- without anything left is reached. There, the remote events in the buffers of all partitions
      -- are counted for their forwarders, as sent or as failed, exactly once if the ticker did not
      -- fire, and exactly twice if it did. The fallback gives up, the buffers hold their items, and
      -- the shutdown is the first one.
      pub shutdown-Finished :
          (s : Closing World)
          → Run c start s
          → (u : Closing World) × Finished start s u
            × ((t : ℕ)
                → counted kind remote fall_back t u.sending
                  ≡ counted kind remote fall_back t start.sending
                    + (if s.timed_out
                        then sum (due items t) (partitions count)
                          + sum (due items t) (partitions count)
                        else sum (due items t) (partitions count)))
      shutdown-Finished s run =
          let (u, (done, w, l, same)) = drain_looping s.looping s refl run in
          let (balanced, early) = Run-InStep start u fresh idle quiet done in
          (
            u,
            (done, w, l, same),
            λ t. let end = rw (w, l, same) at balanced t in omega (arith, end),
          )
