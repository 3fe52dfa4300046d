-- ===== src/Sharing.antt =====
-- internal/satellite/sharing/sharing_plugins.go: the clients and servers that the pipes share.
pub mod Phases
mod Tests
use skywalking_satellite.Base.{ℕ, Bool, true, false, List, [], ◌∷◌, ◌++◌, ◌==◌, if◌then◌else◌}

-- plugin.SharingPlugin: each method answers true for no error, with the world that it leaves.
-- `name` stands for the plugin's name.
pub record SharingPlugin (World : Type 0) : Type 0 where
  pub name : ℕ
  pub prepare : World → Bool × World
  pub start : World → Bool × World
  pub close : World → Bool × World

-- Manager with the once of Load; the map is the list of its values in the order of the range.
pub record Sharing (World : Type 0) : Type 0 where
  pub loaded : Bool
  pub manager : List (SharingPlugin World)

module _ {World : Type 0} where
  -- `Manager[p.Name()] = p`
  unfoldable pub put : SharingPlugin World → List (SharingPlugin World) → List (SharingPlugin World)
  put p [] = p ∷ []
  put p (q ∷ qs) = let rest = put p qs in if q.name == p.name then p ∷ qs else q ∷ rest

  unfoldable pub put_all :
      List (SharingPlugin World) → List (SharingPlugin World) → List (SharingPlugin World)
  put_all [] m = m
  put_all (p ∷ ps) m = put_all ps (put p m)

  unfoldable pub load :
      List (SharingPlugin World) → List (SharingPlugin World) → Sharing World → Sharing World
  load clients servers s =
      let fresh = put_all servers (put_all clients []) in
      if s.loaded then s else record { loaded = true; manager = fresh }

  -- An error of a Close is logged.
  unfoldable pub close_all : List (SharingPlugin World) → World → World
  close_all [] w = w
  close_all (p ∷ ps) w = close_all ps (p.close w).1

  -- The loop of Prepare and Start: at the first error all plugins are closed.
  unfoldable pub each :
      (SharingPlugin World → World → Bool × World)
      → List (SharingPlugin World)
      → List (SharingPlugin World)
      → World
      → Bool × World
  each op all [] w = (true, w)
  each op all (p ∷ ps) w =
      let (done, v) = op p w in
      let rest = each op all ps v in if done then rest else (false, close_all all v)

  unfoldable pub prepare_all : Sharing World → World → Bool × World
  prepare_all s w = each (λ p. p.prepare) s.manager s.manager w

  unfoldable pub start_all : Sharing World → World → Bool × World
  start_all s w = each (λ p. p.start) s.manager s.manager w
