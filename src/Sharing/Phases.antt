-- ===== src/Sharing/Phases.antt =====
-- Prepare and Start of the shared plugins: all of them, or the first failure closes all.
use skywalking_satellite.Base.{
  arith, ℕ, ◌≡◌, ◌≢◌, refl, sym, ap, ◌∙◌, ◌⊎◌, inl, inr, Bool, true, false, Bool-cases, List, [],
  ◌∷◌, ◌++◌, ◌==◌, ==_iff, if◌then◌else◌,
}
use skywalking_satellite.Sharing.{SharingPlugin, Sharing, put, close_all, each}

module _ {World : Type 0} (op : SharingPlugin World → World → Bool × World) where
  -- the world behind the plugins in their order, and that none of them fails
  abbrev pub through : List (SharingPlugin World) → World → World
  through [] w = w
  through (p ∷ ps) w = through ps (op p w).1

  abbrev pub Succeed : List (SharingPlugin World) → World → Type 0
  Succeed [] w = Unit {0}
  Succeed (p ∷ ps) w = ((op p w).0 ≡ true) × Succeed ps (op p w).1

  -- What a phase over the plugins `ps` of `all` comes to.
  pub record FailedAt (all ps : List (SharingPlugin World)) (w : World) (r : Bool × World)
      : Type 0 where
    pub before : List (SharingPlugin World)
    pub culprit : SharingPlugin World
    pub behind : List (SharingPlugin World)
    pub split : ps ≡ before ++ (culprit ∷ behind)
    pub succeeded : Succeed before w
    pub fails : (op culprit (through before w)).0 ≡ false
    pub closed : r ≡ (false, close_all all (op culprit (through before w)).1)

  pub each_lem :
      (all ps : List (SharingPlugin World)) (w : World)
      → (Succeed ps w × (each op all ps w ≡ (true, through ps w)))
        ⊎ FailedAt all ps w (each op all ps w)
  unfolding each
  each_lem all [] w = inl (tt, refl)
  each_lem all (p ∷ ps) w = elim (Bool-cases (op p w).0) [
    | inr failed ↦ inr (record {
      before = [];
      culprit = p;
      behind = ps;
      split = refl;
      succeeded = tt;
      fails = failed;
      closed =
          ap (λ b. if b then each op all ps (op p w).1 else (false, close_all all (op p w).1))
            failed;
    })
    | inl done ↦
        let step : each op all (p ∷ ps) w ≡ each op all ps (op p w).1 =
          ap (λ b. if b then each op all ps (op p w).1 else (false, close_all all (op p w).1))
            done in
        elim (each_lem all ps (op p w).1) [
          | inl (rest, e) ↦ inl ((done, rest), step ∙ e)
          | inr f ↦ inr (record {
            before = p ∷ f.before;
            culprit = f.culprit;
            behind = f.behind;
            split = ap (λ l. p ∷ l) f.split;
            succeeded = (done, f.succeeded);
            fails = f.fails;
            closed = step ∙ f.closed;
          })
        ]
  ]

module _ {World : Type 0} where
  -- The plugin of a name in the manager: the first entry, as names are unique there.
  abbrev pub Named : ℕ → List (SharingPlugin World) → SharingPlugin World → Type 0
  Named n [] p = ⊥
  Named n (q ∷ qs) p = ((q.name ≡ n) × (q ≡ p)) ⊎ ((q.name ≢ n) × Named n qs p)

  -- Putting a plugin under its name: it is found there, and a plugin of another name stays.
  pub put_lem :
      (p : SharingPlugin World) (m : List (SharingPlugin World))
      → Named p.name (put p m) p
        × ((q : SharingPlugin World)
            → q.name ≢ p.name
            → Named q.name m q
            → Named q.name (put p m) q)
  unfolding put
  put_lem p [] = (inl (refl, refl), λ q ne h. absurd h)
  put_lem p (x ∷ m) = elim (Bool-cases (x.name == p.name)) [
    | inl same ↦ rw same (
      inl (refl, refl),
      λ q ne h. elim h [
        | inl (e, here) ↦ absurd (ne (sym e ∙ (==_iff x.name p.name).0 same))
        | inr (other, rest) ↦ inr (λ e. ne (sym e), rest)
      ],
    )
    | inr other ↦
        let (found, kept) = put_lem p m in
        rw other (
          inr (differs x.name p.name other, found),
          λ q ne h. elim h [
            | inl here ↦ inl here
            | inr (not_here, rest) ↦ inr (not_here, kept q ne rest)
          ],
        )
  ]
    where
      differs : (a b : ℕ) → a == b ≡ false → a ≢ b
      differs a b h e = absurd (ground (arith, h, e))
