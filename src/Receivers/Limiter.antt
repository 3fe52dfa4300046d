-- ===== src/Receivers/Limiter.antt =====
-- internal/satellite/module/buffer/limitor.go with its use in
-- plugins/receiver/grpc/envoyalsv2/als_service.go: how many messages wait between the routine that
-- receives them and the routine of the limiter that flushes them.
use skywalking_satellite.Base.{
  zero, suc, refl, ℕ, ◌+◌, ◌-◌, ◌*◌, ◌≤◌, ◌<◌, ◌≡◌, subst, ◌⊎◌, inl, inr, Bool-cases, leb, ◌==◌,
  if◌then◌else◌, arith, ==_iff,
}

-- What the limiter's routine does: it waits in its select, it has taken a timer's tick or a signal of
-- Check, or it takes messages, with the number that it has yet to take; with none left it makes its
-- event.
pub data Flushing : Type 0 where
  selecting accepted : Flushing
  draining : ℕ → Flushing

-- The routine that receives: it waits for the next message of the stream, or has sent one to the channel
-- and is before the `len(messages)` of Check, or is held by Check, which wants to send its signal.
pub data Receiving : Type 0 where
  receiving checking asking : Receiving

-- The length of the channel and the two routines. The flush channel has no buffer, so the signal is sent
-- when the limiter selects it.
pub record Backlog : Type 0 where
  pub waiting : ℕ
  pub receiver : Receiving
  pub flushing : Flushing

-- `messages <- data.Content`
unfoldable pub put_message : Backlog → Backlog
put_message s = record s { waiting = s.waiting + 1; receiver = checking }

-- Check up to its signal
unfoldable pub check : ℕ → Backlog → Backlog
check limit_count s = record s {
  receiver = if leb limit_count s.waiting then asking else receiving;
}

-- The limiter selects the signal, or the timer.
unfoldable pub on_signal : Backlog → Backlog
on_signal s = record s { receiver = receiving; flushing = accepted }

unfoldable pub on_timer : Backlog → Backlog
on_timer s = record s { flushing = accepted }

-- `count := len(messages)`, and the return without any.
unfoldable pub begin_flush : Backlog → Backlog
begin_flush s = record s { flushing = if s.waiting == 0 then selecting else draining s.waiting }

-- `<-messages`
unfoldable pub take_message : ℕ → Backlog → Backlog
take_message left s = record s { waiting = s.waiting - 1; flushing = draining left }

-- The event was sent, or the first message could not be read: back to the select.
unfoldable pub end_flush : Backlog → Backlog
end_flush s = record s { flushing = selecting }

abbrev pub no_message : Backlog
no_message = record { waiting = 0; receiver = receiving; flushing = selecting }

-- Any interleaving of the two routines. The receiver goes on when Check has sent its signal.
pub data Reached (limit_count : ℕ) : Backlog → Type 0 where
  opened : Reached limit_count no_message
  came :
      {s : Backlog}
      → Reached limit_count s
      → s.receiver ≡ receiving
      → Reached limit_count (put_message s)
  checked :
      {s : Backlog}
      → Reached limit_count s
      → s.receiver ≡ checking
      → Reached limit_count (check limit_count s)
  signalled :
      {s : Backlog}
      → Reached limit_count s
      → s.receiver ≡ asking
      → s.flushing ≡ selecting
      → Reached limit_count (on_signal s)
  timed :
      {s : Backlog}
      → Reached limit_count s
      → s.flushing ≡ selecting
      → Reached limit_count (on_timer s)
  began :
      {s : Backlog}
      → Reached limit_count s
      → s.flushing ≡ accepted
      → Reached limit_count (begin_flush s)
  took :
      {s : Backlog} (left : ℕ)
      → Reached limit_count s
      → s.flushing ≡ draining (suc left)
      → Reached limit_count (take_message left s)
  flushed :
      {s : Backlog}
      → Reached limit_count s
      → s.flushing ≡ draining 0
      → Reached limit_count (end_flush s)

-- When nothing is being taken, there is room for one message less.
abbrev pub reserve : Flushing → ℕ
reserve selecting = 1
reserve accepted = 0
reserve (draining zero) = 1
reserve (draining (suc n)) = 0

abbrev pub Counted : Flushing → ℕ → Type 0
Counted selecting w = Unit {0}
Counted accepted w = Unit {0}
Counted (draining n) w = n ≤ w

abbrev pub one_more : Receiving → ℕ
one_more receiving = 0
one_more checking = 1
one_more asking = 1

abbrev pub Limited : ℕ → Backlog → Type 0
Limited limit s =
    (s.waiting + reserve s.flushing ≤ limit + one_more s.receiver) × Counted s.flushing s.waiting

Counted-more : (f : Flushing) (w : ℕ) → Counted f w → Counted f (w + 1)
Counted-more selecting w c = tt
Counted-more accepted w c = tt
Counted-more (draining n) w c = omega (arith, c)

reserve_small : (f : Flushing) → reserve f ≤ 1
reserve_small selecting = omega arith
reserve_small accepted = omega arith
reserve_small (draining zero) = omega arith
reserve_small (draining (suc n)) = omega arith

reserve_none : (n : ℕ) → 0 < n → reserve (draining n) ≡ 0
reserve_none zero h = absurd (omega (arith, h))
reserve_none (suc n) h = refl

put_message-Limited :
    (limit : ℕ) (s : Backlog)
    → s.receiver ≡ receiving
    → Limited limit s
    → Limited limit (put_message s)
unfolding put_message
put_message-Limited limit s free (bound, count) =
    let before = rw free at bound in
    (omega (arith, before), Counted-more s.flushing s.waiting count)

check-Limited :
    (limit : ℕ) (s : Backlog)
    → s.receiver ≡ checking
    → Limited limit s
    → Limited limit (check limit s)
unfolding check
check-Limited limit s there (bound, count) =
    let before = rw there at bound in
    (
      elim (Bool-cases (leb limit s.waiting)) [
        | inl full ↦ rw full (omega (arith, before))
        | inr room ↦ rw room (ground (arith, room, reserve_small s.flushing))
      ],
      count,
    )

begin_flush-Limited :
    (limit : ℕ) (s : Backlog)
    → 0 < limit
    → s.flushing ≡ accepted
    → Limited limit s
    → Limited limit (begin_flush s)
unfolding begin_flush
begin_flush-Limited limit s some_limit now (bound, count) = elim (Bool-cases (s.waiting == 0)) [
  | inl empty ↦ rw empty (omega (arith, some_limit, (==_iff s.waiting 0).0 empty), tt)
  | inr some_wait ↦
      let before = rw now at bound in
      let positive : 0 < s.waiting = ground (arith, some_wait) in
      rw some_wait (omega (arith, before, reserve_none s.waiting positive), omega arith)
]

take_message-Limited :
    (limit : ℕ) (s : Backlog) (left : ℕ)
    → s.flushing ≡ draining (suc left)
    → Limited limit s
    → Limited limit (take_message left s)
unfolding take_message
take_message-Limited limit s left now (bound, count) =
    let before = rw now at bound in
    let counted = subst (λ f. Counted f s.waiting) now count in
    (omega (arith, before, counted, reserve_small (draining left)), omega (arith, counted))

Reached-Limited : (limit : ℕ) (s : Backlog) → 0 < limit → Reached limit s → Limited limit s
unfolding on_signal on_timer end_flush
Reached-Limited limit _ some_limit opened = (omega (arith, some_limit), tt)
Reached-Limited limit _ some_limit (came {s = s} r free) =
    put_message-Limited limit s free (Reached-Limited limit s some_limit r)
Reached-Limited limit _ some_limit (checked {s = s} r there) =
    check-Limited limit s there (Reached-Limited limit s some_limit r)
Reached-Limited limit _ some_limit (signalled {s = s} r asks selects) =
    let (bound, count) = Reached-Limited limit s some_limit r in
    let before = rw (asks, selects) at bound in (omega (arith, before), tt)
Reached-Limited limit _ some_limit (timed {s = s} r selects) =
    let (bound, count) = Reached-Limited limit s some_limit r in
    let before = rw selects at bound in (omega (arith, before), tt)
Reached-Limited limit _ some_limit (began {s = s} r now) =
    begin_flush-Limited limit s some_limit now (Reached-Limited limit s some_limit r)
Reached-Limited limit _ some_limit (took {s = s} left r now) =
    take_message-Limited limit s left now (Reached-Limited limit s some_limit r)
Reached-Limited limit _ some_limit (flushed {s = s} r now) =
    let (bound, count) = Reached-Limited limit s some_limit r in
    let before = rw now at bound in (omega (arith, before), tt)

-- However the steps of the routine that receives and of the limiter interleave, the limiter's also
-- between the sending of a message and Check: at most one message more than the limit count waits;
-- and when the receiver is neither before its check nor held by it, at most the limit count waits,
-- so that the channel, which has twice the limit count, has room for the next message. The limit
-- count is positive.
pub waiting-bounds :
    (limit : ℕ) (s : Backlog)
    → 0 < limit
    → Reached limit s
    → (s.waiting ≤ limit + 1)
      × ((s.receiver ≡ checking)
          ⊎ (s.receiver ≡ asking)
          ⊎ ((s.receiver ≡ receiving) × (s.waiting ≤ limit) × (s.waiting < limit * 2)))
waiting-bounds limit s some_limit r =
    let (bound, count) = Reached-Limited limit s some_limit r in
    elim (receiver_cases s.receiver) [
      | inl there ↦ let before = rw there at bound in (omega (arith, before), inl there)
      | inr (inl held) ↦ let before = rw held at bound in (omega (arith, before), inr (inl held))
      | inr (inr free) ↦
          let before = rw free at bound in
          (
            omega (arith, before),
            inr (inr (free, omega (arith, before), omega (arith, before, some_limit))),
          )
    ]
  where
    receiver_cases : (r : Receiving) → (r ≡ checking) ⊎ (r ≡ asking) ⊎ (r ≡ receiving)
    receiver_cases receiving = inr (inr refl)
    receiver_cases checking = inl refl
    receiver_cases asking = inr (inl refl)
