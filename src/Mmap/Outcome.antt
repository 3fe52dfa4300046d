-- ===== src/Mmap/Outcome.antt =====
-- What a call of the queue comes to: a value, an error, or a wait that nothing ends. Beside it
-- stands the state that the call leaves.
use skywalking_satellite.Base.{ℕ, ◌≡◌, refl}
use skywalking_satellite.Mmap.Meta.{MetaError}

pub data Error : Type 0 where
  full empty closed : Error  -- api.ErrFull, api.ErrEmpty, api.ErrClosed
  too_large : ℕ → Error
  cannot_open cannot_flush cannot_unmap out_of_bounds : Error
  cannot_marshal cannot_unmarshal : Error
  cannot_create_metadata : MetaError → Error

pub data Outcome (A : Type 0) : Type 0 where
  ok : A → Outcome A
  err : Error → Outcome A
  spin : Outcome A

abbrev pub M : Type 0 → Type 0 → Type 0
M S A = S → Outcome A × S

abbrev pub pure : {S A : Type 0} → A → M S A
pure a s = (ok a, s)

abbrev pub fail : {S A : Type 0} → Error → M S A
fail e s = (err e, s)

abbrev pub modify : {S : Type 0} → (S → S) → M S (Unit {0})
modify f s = (ok tt, f s)

-- What follows an outcome.
abbrev pub after : {S A B : Type 0} → Outcome A → S → (A → M S B) → Outcome B × S
after (ok a) s f = f a s
after (err e) s f = (err e, s)
after spin s f = (spin, s)

infixl 5 ◌>>=◌ ◌>>◌
abbrev pub ◌>>=◌ : {S A B : Type 0} → M S A → (A → M S B) → M S B
◌>>=◌ m f s = after (m s).0 (m s).1 f

abbrev pub ◌>>◌ : {S B : Type 0} → M S (Unit {0}) → M S B → M S B
m >> k = m >>= λ _. k

abbrev pub log_error : {S : Type 0} → Outcome (Unit {0}) → S → Outcome (Unit {0}) × S
log_error (ok a) s = (ok tt, s)
log_error (err e) s = (ok tt, s)
log_error spin s = (spin, s)

-- An error is written to the log, and the caller goes on.
abbrev pub logged : {S : Type 0} → M S (Unit {0}) → M S (Unit {0})
logged m s = log_error (m s).0 (m s).1

-- A call that returns a value has `P`; if it does not return one, `F` holds. With `⊥` for `F` the
-- call is total, with `Unit` the statement is about the calls that return.
pub data Ensures {S A : Type 0} (F : Type 0) (P : A → S → Type 0) : Outcome A → S → Type 0 where
  holds : {a : A} {s : S} → P a s → Ensures F P (ok a) s
  failed : {e : Error} {s : S} → F → Ensures F P (err e) s
  spun : {s : S} → F → Ensures F P spin s

pub Ensures-after :
    {S A B : Type 0} {F : Type 0} {P : A → S → Type 0} (Q : B → S → Type 0) (f : A → M S B)
    {o : Outcome A} {s : S}
    → Ensures F P o s
    → ((a : A) (t : S) → P a t → Ensures F Q (f a t).0 (f a t).1)
    → Ensures F Q (after o s f).0 (after o s f).1
Ensures-after Q f (holds {a = a} {s = s} p) k = k a s p
Ensures-after Q f (failed h) k = failed h
Ensures-after Q f (spun h) k = spun h

pub Ensures-weaken :
    {S A : Type 0} {F : Type 0} {P Q : A → S → Type 0} {o : Outcome A} {s : S}
    → Ensures F P o s
    → ((a : A) (t : S) → P a t → Q a t)
    → Ensures F Q o s
Ensures-weaken (holds {a = a} {s = s} p) k = holds (k a s p)
Ensures-weaken (failed h) k = failed h
Ensures-weaken (spun h) k = spun h

-- A total call returns a value.
pub Ensures-total :
    {S A : Type 0} {P : A → S → Type 0} {o : Outcome A} {s : S}
    → Ensures ⊥ P o s
    → (a : A) × (o ≡ ok a) × P a s
Ensures-total (holds {a = a} p) = (a, refl, p)
Ensures-total (failed h) = absurd h
Ensures-total (spun h) = absurd h

-- A value that was returned has the property.
pub Ensures-ok :
    {S A : Type 0} {P : A → S → Type 0} (a : A) {s : S} → Ensures (Unit {0}) P (ok a) s → P a s
Ensures-ok a (holds p) = p

-- Where a failure is excused, only the value has to be looked at.
pub Ensures-excused :
    {S A : Type 0} {F : Type 0} (P : A → S → Type 0) (o : Outcome A) (s : S)
    → F
    → ((a : A) → P a s)
    → Ensures F P o s
Ensures-excused P (ok a) s f k = holds (k a)
Ensures-excused P (err e) s f k = failed f
Ensures-excused P spin s f k = spun f
