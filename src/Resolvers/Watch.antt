-- ===== src/Resolvers/Watch.antt =====
-- KindCache of plugins/client/grpc/resolvers/kubernetes_kinds.go: the cache of the groups and the
-- updates of the addresses.
use skywalking_satellite.Base.{
  ◌≡◌, refl, sym, ap, ◌∙◌, Bool, Bool-cases, false, Option, none, some, List, [], ◌∷◌, ◌++◌,
  if◌then◌else◌, Text, text_eq, text_eq_iff, inl, inr,
}
use skywalking_satellite.Resolvers.Kinds.{Group, LabelSet}

-- The map of the cache as its groups, each under its source, in an order that a range may have.
unfoldable pub delete : Text → List Group → List Group
delete source [] = []
delete source (g ∷ gs) =
    let rest = delete source gs in if text_eq g.source source then rest else g ∷ rest

unfoldable pub insert : Group → List Group → List Group
insert tg cache = tg ∷ delete tg.source cache

-- `analyze` is GetAddresses of the chosen analyzer with the configured port.
module _ {World : Type 0} (analyze : List Group → List Text)
    (update_state : List Text → World → Bool × World) where
  -- UpdateAddresses; what it answers is logged by its callers.
  unfoldable pub update_addresses : List Group → World → Bool × World
  update_addresses cache w = update_state (analyze cache) w

  -- one round of the loop over a message
  unfoldable pub on_group : Group → List LabelSet → List Group × World → List Group × World
  on_group tg [] (cache, w) = (delete tg.source cache, w)
  on_group tg (t ∷ ts) (cache, w) = (insert tg cache, (update_addresses (insert tg cache) w).1)

  unfoldable pub on_groups : List Group → List Group × World → List Group × World
  on_groups [] s = s
  on_groups (tg ∷ tgs) s = on_groups tgs (on_group tg tg.targets s)

  -- The map that a cache stands for.
  abbrev pub lookup : Text → List Group → Option Group
  lookup source [] = none
  lookup source (g ∷ gs) = if text_eq g.source source then some g else lookup source gs

  -- What a message says about a source: its last group, unless that has no targets.
  abbrev pub said : Group → List LabelSet → Option Group
  said tg [] = none
  said tg (t ∷ ts) = some tg

  abbrev pub latest : Text → List Group → Option Group → Option Group
  latest source [] known = known
  latest source (tg ∷ tgs) known =
      latest source tgs (if text_eq tg.source source then said tg tg.targets else known)

  abbrev pub AllEmpty : List Group → Type 0
  AllEmpty [] = Unit {0}
  AllEmpty (tg ∷ tgs) = (tg.targets ≡ []) × AllEmpty tgs

  lookup-delete :
      (source : Text) (gs : List Group) (other : Text)
      → lookup other (delete source gs) ≡ (if text_eq source other then none else lookup other gs)
  unfolding delete
  lookup-delete source [] other = elim (Bool-cases (text_eq source other)) [
    | inl same ↦ rw same refl
    | inr different ↦ rw different refl
  ]
  lookup-delete source (g ∷ gs) other =
      let step = lookup-delete source gs other in
      elim (Bool-cases (text_eq g.source source)) [
        | inl named ↦ elim (Bool-cases (text_eq source other)) [
          | inl same ↦ rw (named, step, same) refl
          | inr different ↦
              let moved : text_eq g.source other ≡ false =
                ap (λ z. text_eq z other) ((text_eq_iff g.source source).0 named) ∙ different in
              rw (named, step, different, moved) refl
        ]
        | inr kept ↦ elim (Bool-cases (text_eq source other)) [
          | inl same ↦
              let moved : text_eq g.source other ≡ false =
                ap (text_eq g.source) (sym ((text_eq_iff source other).0 same)) ∙ kept in
              rw (kept, moved, step, same) refl
          | inr different ↦ rw (kept, step, different) refl
        ]
      ]

  lookup-on_group :
      (source : Text) (tg : Group) (ts : List LabelSet) (s : List Group × World)
      → lookup source (on_group tg ts s).0
        ≡ (if text_eq tg.source source then said tg ts else lookup source s.0)
  unfolding on_group insert
  lookup-on_group source tg [] s = lookup-delete tg.source s.0 source
  lookup-on_group source tg (t ∷ ts) s = elim (Bool-cases (text_eq tg.source source)) [
    | inl same ↦ rw same refl
    | inr different ↦ rw (different, lookup-delete tg.source s.0 source, different) refl
  ]

  lookup-on_groups :
      (source : Text) (tgs : List Group) (s : List Group × World)
      → lookup source (on_groups tgs s).0 ≡ latest source tgs (lookup source s.0)
  unfolding on_groups
  lookup-on_groups source [] s = refl
  lookup-on_groups source (tg ∷ tgs) s =
      lookup-on_groups source tgs (on_group tg tg.targets s)
      ∙ ap (latest source tgs) (lookup-on_group source tg tg.targets s)

  on_groups-append :
      (tgs : List Group) (tg : Group) (s : List Group × World)
      → on_groups (tgs ++ (tg ∷ [])) s ≡ on_group tg tg.targets (on_groups tgs s)
  unfolding on_groups
  on_groups-append [] tg s = refl
  on_groups-append (g ∷ tgs) tg s = on_groups-append tgs tg (on_group g g.targets s)

  on_groups-AllEmpty :
      (tgs : List Group) (s : List Group × World) → AllEmpty tgs → (on_groups tgs s).1 ≡ s.1
  unfolding on_groups on_group
  on_groups-AllEmpty [] s h = refl
  on_groups-AllEmpty (tg ∷ tgs) s h =
      on_groups-AllEmpty tgs (on_group tg tg.targets s) h.1 ∙ ap (λ l. (on_group tg l s).1) h.0

  -- After a message, every source leads to the last group that the message has for it, to none when
  -- that has no targets, and to what it led to when there is none. When the last group of the
  -- message has targets, the addresses of the whole cache are handed over at the end; when no group
  -- of a message has targets, nothing is handed over, although the sources are gone.
  pub on_groups_lem :
      (tgs empty : List Group) (tg : Group) (t : LabelSet) (ts : List LabelSet)
      (s : List Group × World) (source : Text)
      → tg.targets ≡ t ∷ ts
      → AllEmpty empty
      → (lookup source (on_groups tgs s).0 ≡ latest source tgs (lookup source s.0))
        × ((on_groups (tgs ++ (tg ∷ [])) s).1
            ≡ (update_state (analyze (on_groups (tgs ++ (tg ∷ [])) s).0) (on_groups tgs s).1).1)
        × ((on_groups empty s).1 ≡ s.1)
  unfolding on_group update_addresses
  on_groups_lem tgs empty tg t ts s source some_targets none_left = (
    lookup-on_groups source tgs s,
    rw (on_groups-append tgs tg s, some_targets) refl,
    on_groups-AllEmpty empty s none_left,
  )
