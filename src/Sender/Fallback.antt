-- ===== src/Sender/Fallback.antt =====
-- plugins/fallbacker/timer/timer_fallbacker.go and plugins/fallbacker/none: what happens to a batch
-- that could not be forwarded.
use skywalking_satellite.Base.{
  ℕ, zero, suc, ◌+◌, ◌-◌, ◌*◌, ◌≤◌, ◌<◌, ◌≡◌, refl, ap, ◌⊎◌, inl, inr, Bool, true, false,
  Bool-cases, List, [], ◌∷◌, length, ltb, if◌then◌else◌, arith,
}

-- The configuration of the timer fallbacker.
pub record Fallbacker : Type 0 where
  pub max_attempts : ℕ
  pub exponential_backoff : ℕ
  pub max_backoff : ℕ

-- The latency behind a failed attempt. Latencies are far below the wrap-around of an int.
unfoldable pub next_latency : Fallbacker → ℕ → ℕ
next_latency t latency = if ltb t.max_backoff (latency * 2) then t.max_backoff else latency * 2

abbrev pub Within : ℕ → List ℕ → Type 0
Within bound [] = Unit {0}
Within bound (x ∷ xs) = (x ≤ bound) × Within bound xs

module _ {Batch World : Type 0} where
  -- `for i := 1; i < t.MaxAttempts; i++`: the first argument counts the rounds left. Beside the
  -- answer and the world stand the latencies that were slept, in order.
  unfoldable pub attempts :
      ℕ → Fallbacker → ℕ → Batch → (Batch → World → Bool × World) → World → Bool × World × List ℕ
  attempts zero t latency batch forward w = (false, w, [])
  attempts (suc n) t latency batch forward w =
      let (sent, v) = forward batch w in
      let (r, u, slept) = attempts n t (next_latency t latency) batch forward v in
      if sent then (true, v, latency ∷ []) else (r, u, latency ∷ slept)

  unfoldable pub fall_back :
      Fallbacker → Batch → (Batch → World → Bool × World) → World → Bool × World × List ℕ
  fall_back t batch forward w =
      attempts (t.max_attempts - 1) t t.exponential_backoff batch forward w

  -- The none fallbacker answers true for every batch and forwards nothing.
  unfoldable pub none_fall_back : Batch → (Batch → World → Bool × World) → World → Bool × World
  none_fall_back batch forward w = (true, w)

  -- The world behind `n` attempts in a row.
  abbrev pub after_tries : ℕ → Batch → (Batch → World → Bool × World) → World → World
  after_tries zero batch forward w = w
  after_tries (suc n) batch forward w = after_tries n batch forward (forward batch w).1

  -- Whether the attempt behind `n` others succeeds.
  abbrev pub try_succeeds : ℕ → Batch → (Batch → World → Bool × World) → World → Bool
  try_succeeds n batch forward w = (forward batch (after_tries n batch forward w)).0

  -- What a run of at most `n` attempts has done: it stopped at the first that succeeded, or none of
  -- them did; it slept once before each, and never longer than the bound.
  pub record Tried (n bound : ℕ) (batch : Batch) (forward : Batch → World → Bool × World)
      (w : World) (r : Bool × World × List ℕ) : Type 0 where
    pub made : ℕ
    pub at_most : made ≤ n
    pub world : r.1 ≡ after_tries made batch forward w
    pub slept_each : length r.2 ≡ made
    pub slept_within : Within bound r.2
    pub failed_before : (i : ℕ) → i + 1 < made → try_succeeds i batch forward w ≡ false
    pub answer :
        ((r.0 ≡ true) × ((k : ℕ) × (made ≡ suc k) × (try_succeeds k batch forward w ≡ true)))
        ⊎ ((r.0 ≡ false) × (made ≡ n) × ((i : ℕ) → i < n → try_succeeds i batch forward w ≡ false))

  attempts-Tried :
      (n : ℕ) (t : Fallbacker) (bound latency : ℕ) (batch : Batch)
      (forward : Batch → World → Bool × World) (w : World)
      → t.max_backoff ≤ bound
      → latency ≤ bound
      → Tried n bound batch forward w (attempts n t latency batch forward w)
  unfolding attempts next_latency
  attempts-Tried zero t bound latency batch forward w h l = record {
    made = 0;
    at_most = omega arith;
    world = refl;
    slept_each = refl;
    slept_within = tt;
    failed_before = λ i lower. absurd (omega (arith, lower));
    answer = inr (refl, refl, λ i lower. absurd (omega (arith, lower)));
  }
  attempts-Tried (suc n) t bound latency batch forward w h l =
      elim (Bool-cases (forward batch w).0) [
        | inl sent ↦ rw sent (record {
          made = 1;
          at_most = omega arith;
          world = refl;
          slept_each = refl;
          slept_within = (l, tt);
          failed_before = λ i lower. absurd (omega (arith, lower));
          answer = inl (refl, (0, refl, sent));
        })
        | inr failed ↦ rw failed (
            later failed (
              attempts-Tried n t bound (next_latency t latency) batch forward (forward batch w).1 h
                (ground (arith, h))))
      ]
    where
      before :
          (i : ℕ)
          → (forward batch w).0 ≡ false
          → ((j : ℕ) → i ≡ suc j → try_succeeds j batch forward (forward batch w).1 ≡ false)
          → try_succeeds i batch forward w ≡ false
      before zero failed rest = failed
      before (suc j) failed rest = rest j refl

      later :
          (forward batch w).0 ≡ false
          → Tried n bound batch forward
              (forward batch w).1
              (attempts n t (next_latency t latency) batch forward (forward batch w).1)
          → Tried (suc n) bound batch forward w (
            (attempts n t (next_latency t latency) batch forward (forward batch w).1).0,
            (attempts n t (next_latency t latency) batch forward (forward batch w).1).1,
            latency ∷ (attempts n t (next_latency t latency) batch forward (forward batch w).1).2,
          )
      later failed r = record {
        made = suc r.made;
        at_most = omega (arith, r.at_most);
        world = r.world;
        slept_each = ap suc r.slept_each;
        slept_within = (l, r.slept_within);
        failed_before =
            λ i lower. before i failed λ j e. r.failed_before j (omega (arith, lower, e));
        answer = elim r.answer [
          | inl (done, (k, made, sent)) ↦ inl (done, (suc k, ap suc made, sent))
          | inr (gave_up, made, none) ↦ inr (
            gave_up,
            ap suc made,
            λ i lower. before i failed λ j e. none j (omega (arith, lower, e)),
          )
        ];
      }

  -- The timer fallbacker makes at most one attempt less than configured: it answers true exactly
  -- when one of them succeeds, stops there, leaves the world of the attempts made, and sleeps once
  -- before each attempt, never longer than the largest backoff. The first backoff is within it.
  pub fall_back-Tried :
      (t : Fallbacker) (batch : Batch) (forward : Batch → World → Bool × World) (w : World)
      → t.exponential_backoff ≤ t.max_backoff
      → Tried (t.max_attempts - 1) t.max_backoff batch forward w (fall_back t batch forward w)
  unfolding fall_back
  fall_back-Tried t batch forward w h =
      attempts-Tried (t.max_attempts - 1) t t.max_backoff t.exponential_backoff batch forward w
        (omega arith) h
