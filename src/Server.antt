-- ===== src/Server.antt =====
-- plugins/server/grpc/server_limiter.go and server_connections.go: the limit on open connections,
-- with any number of routines that accept and close.
mod Tests
use skywalking_satellite.Base.{
  ℕ, ◌+◌, ◌-◌, ◌≤◌, ◌<◌, ◌≡◌, refl, sym, subst, ap, ◌∙◌, ◌⊎◌, inl, inr, Bool, true, false, ◌||◌,
  Bool-cases, ltb, leb, if◌then◌else◌, arith, List, ◌∷◌, [], ◌++◌,
}

-- The fields of AcceptLimiter; `connection_count` is the configured limit. ActiveConnection is an
-- int32 that counts up only for a connection, so that it is far below the wrap-around.
pub record AcceptLimiter : Type 0 where
  pub connection_count : ℕ
  pub active_connection : ℕ

-- What CouldHandleConnection finds out before it counts. `cpu_high` is the comparison of the two
-- floating-point numbers of the CPU check.
unfoldable pub may_count : Bool → AcceptLimiter → Bool
may_count cpu_high a =
    if cpu_high then false else (if leb a.connection_count a.active_connection then false else true)

-- The atomic steps behind the checks: count up, and down again.
unfoldable pub add_active : AcceptLimiter → AcceptLimiter
add_active a = record a { active_connection = a.active_connection + 1 }

unfoldable pub close_connection : AcceptLimiter → AcceptLimiter
close_connection a = record a { active_connection = a.active_connection - 1 }

-- CouldHandleConnection when no other routine runs in between.
unfoldable pub could_handle_connection : Bool → AcceptLimiter → Bool × AcceptLimiter
could_handle_connection cpu_high a =
    let counted = add_active a in
    if may_count cpu_high a
    then (if ltb a.connection_count counted.active_connection
        then (false, close_connection counted)
        else (true, counted))
    else (false, a)

-- ConnectionWrapper: the first Close notifies the manager, a later one does not.
pub record ConnectionWrapper : Type 0 where
  pub notified : Bool

unfoldable pub close_notify : ConnectionWrapper → AcceptLimiter → ConnectionWrapper × AcceptLimiter
close_notify c a = if c.notified then (c, a) else (record c { notified = true }, close_connection a)

-- The wrappers that were not closed yet.
abbrev pub open_connections : List ConnectionWrapper → ℕ
open_connections [] = 0
open_connections (c ∷ cs) = (if c.notified then 0 else 1) + open_connections cs

-- The routines together: `checked` have passed the checks, `over` have counted beyond the limit and
-- not yet down again, `connections` are the wrappers that Accept gave out.
pub record Routines : Type 0 where
  pub limiter : AcceptLimiter
  pub checked : ℕ
  pub over : ℕ
  pub connections : List ConnectionWrapper

-- Any interleaving of the atomic steps of the routines. A wrapper may be closed any number of times.
pub data Step (s : Routines) : Routines → Type 0 where
  check :
      (cpu_high : Bool)
      → may_count cpu_high s.limiter ≡ true
      → Step s (record s { checked = s.checked + 1 })
  accept :
      0 < s.checked
      → ltb s.limiter.connection_count (add_active s.limiter).active_connection ≡ false
      → Step s (record s {
        limiter = add_active s.limiter;
        checked = s.checked - 1;
        connections = (record { notified = false }) ∷ s.connections;
      })
  exceed :
      0 < s.checked
      → ltb s.limiter.connection_count (add_active s.limiter).active_connection ≡ true
      → Step s
          (record s { limiter = add_active s.limiter; checked = s.checked - 1; over = s.over + 1 })
  give_back :
      0 < s.over → Step s (record s { limiter = close_connection s.limiter; over = s.over - 1 })
  close :
      (before : List ConnectionWrapper) (c : ConnectionWrapper) (behind : List ConnectionWrapper)
      → s.connections ≡ before ++ (c ∷ behind)
      → Step s (record s {
        limiter = (close_notify c s.limiter).1;
        connections = before ++ ((close_notify c s.limiter).0 ∷ behind);
      })

pub data Steps (start : Routines) : Routines → Type 0 where
  done : Steps start start
  more : {s t : Routines} → Steps start s → Step s t → Steps start t

-- The count is that of the open connections and of the routines about to count down, and the open
-- connections are within the limit.
pub record Limited (limit : ℕ) (s : Routines) : Type 0 where
  pub limit_kept : s.limiter.connection_count ≡ limit
  pub accounted : s.limiter.active_connection ≡ open_connections s.connections + s.over
  pub within : open_connections s.connections ≤ limit

open_connections-append :
    (xs ys : List ConnectionWrapper)
    → open_connections (xs ++ ys) ≡ open_connections xs + open_connections ys
open_connections-append [] ys = omega arith
open_connections-append (x ∷ xs) ys = omega (arith, open_connections-append xs ys)

close_wrapper-Limited :
    (limit : ℕ) (s : Routines) (before : List ConnectionWrapper) (again : Bool)
    (behind : List ConnectionWrapper)
    → Limited limit s
    → s.connections ≡ before ++ ((record { notified = again }) ∷ behind)
    → Limited limit (record s {
      limiter = (close_notify (record { notified = again }) s.limiter).1;
      connections = before ++ ((close_notify (record { notified = again }) s.limiter).0 ∷ behind);
    })
unfolding close_notify close_connection
close_wrapper-Limited limit s before true behind l e =
    let count = ap open_connections e in
    record {
      limit_kept = l.limit_kept;
      accounted = omega (arith, l.accounted, count);
      within = omega (arith, l.within, count);
    }
close_wrapper-Limited limit s before false behind l e =
    let count =
      ap open_connections e
      ∙ open_connections-append before ((record { notified = false }) ∷ behind) in
    let less = open_connections-append before ((record { notified = true }) ∷ behind) in
    record {
      limit_kept = l.limit_kept;
      accounted = omega (arith, l.accounted, count, less);
      within = omega (arith, l.within, count, less);
    }

Step-Limited : (limit : ℕ) (s t : Routines) → Limited limit s → Step s t → Limited limit t
unfolding add_active close_connection
Step-Limited limit s _ l (check cpu_high may) = record {
  limit_kept = l.limit_kept;
  accounted = l.accounted;
  within = l.within;
}
Step-Limited limit s _ l (accept h e) = record {
  limit_kept = l.limit_kept;
  accounted = omega (arith, l.accounted);
  within = ground (arith, e, l.accounted, l.limit_kept);
}
Step-Limited limit s _ l (exceed h e) = record {
  limit_kept = l.limit_kept;
  accounted = omega (arith, l.accounted);
  within = l.within;
}
Step-Limited limit s _ l (give_back h) = record {
  limit_kept = l.limit_kept;
  accounted = omega (arith, l.accounted);
  within = l.within;
}
Step-Limited limit s _ l (close before c behind e) =
    close_wrapper-Limited limit s before c.notified behind l e

-- However the routines' steps interleave, and however often each connection is closed: the
-- connections that were accepted and not yet closed never exceed the limit, and the active count is
-- their number and that of the routines that are about to count down. It starts without connections
-- and without routines that are about to count down.
pub Steps-Limited :
    (limit : ℕ) (start t : Routines)
    → start.limiter.connection_count ≡ limit
    → start.limiter.active_connection ≡ 0
    → start.connections ≡ []
    → start.over ≡ 0
    → Steps start t
    → Limited limit t
Steps-Limited limit start _ c a o v done = record {
  limit_kept = c;
  accounted = omega (arith, a, v, ap open_connections o);
  within = omega (arith, ap open_connections o);
}
Steps-Limited limit start t c a o v (more {s = s} steps step) =
    Step-Limited limit s t (Steps-Limited limit start s c a o v steps) step

-- With no other routine in between, a connection is handled exactly when the CPU is not high and
-- the count is below the limit; then it is counted, and otherwise the limiter is left as it was.
pub could_handle_connection_lem :
    (cpu_high : Bool) (a : AcceptLimiter)
    → ((could_handle_connection cpu_high a ≡ (true, add_active a))
        × (cpu_high ≡ false)
        × (a.active_connection < a.connection_count))
      ⊎ ((could_handle_connection cpu_high a ≡ (false, a))
          × ((cpu_high ≡ true) ⊎ (a.connection_count ≤ a.active_connection)))
unfolding could_handle_connection may_count add_active
could_handle_connection_lem true a = inr (refl, inl refl)
could_handle_connection_lem false a =
    elim (Bool-cases (leb a.connection_count a.active_connection)) [
      | inl high ↦ inr (rw high refl, inr (ground (arith, high)))
      | inr low ↦
          let fits : ltb a.connection_count (a.active_connection + 1) ≡ false =
            ground (arith, low) in
          inl (rw (low, fits) refl, refl, ground (arith, low))
    ]
