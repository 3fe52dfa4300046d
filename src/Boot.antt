-- ===== src/Boot.antt =====
-- internal/satellite/boot/boot.go: the modules of the pipes are made, prepared and booted, and what was
-- begun is taken back at an error.
pub mod Phases
mod Tests
use skywalking_satellite.Base.{
  ℕ, ◌≡◌, refl, sym, ap, ◌∙◌, ◌⊎◌, inl, inr, Bool, true, false, Bool-cases, ◌||◌, not, Option, none,
  some, List, [], ◌∷◌, ◌++◌, append_assoc, if◌then◌else◌, Text, text_eq,
}

-- `api.Module` on a world; the flag of a call says that there is no error. Boot returns when the module
-- has been shut down.
pub record Module (W : Type 0) : Type 0 where
  pub prepare : W → Bool × W
  pub boot : W → W
  pub shutdown : W → W

-- What Start calls of the other packages: telemetry.Init, sharing.Prepare, Start and Close, and
-- telemetry.AfterShardingStart.
pub record Globals (W : Type 0) : Type 0 where
  pub init_telemetry : W → Bool × W
  pub prepare_sharing : W → Bool × W
  pub start_sharing : W → Bool × W
  pub close_sharing : W → W
  pub after_sharing_start : W → Bool × W

-- `config.PipeConfig`: the parts of a pipe, each of which may be missing.
pub record PipeConfig (G S P : Type 0) : Type 0 where
  pub pipe_name : Text
  pub gatherer : Option G
  pub sender : Option S
  pub processor : Option P

-- The constructors of the modules, and whether SetProcessor, SetGatherer and SetSender go well.
pub record Makers (G S P W : Type 0) : Type 0 where
  pub new_gatherer : G → Module W
  pub new_sender : S → Module W
  pub new_processor : P → Module W
  pub set_processor : G → P → Bool
  pub set_gatherer : P → G → Bool
  pub set_sender : P → S → Bool
  pub set_sender_gatherer : S → G → Bool

-- `ModuleContainer`: the modules by pipe. The map is walked in the order of its entries here.
abbrev pub ModuleContainer : Type 0 → Type 0
ModuleContainer W = List (Text × List (Module W))

-- `container[name] = modules`: a second pipe of one name replaces the first.
unfoldable pub put_modules :
    {W : Type 0} → Text → List (Module W) → ModuleContainer W → ModuleContainer W
put_modules name modules [] = (name, modules) ∷ []
put_modules name modules ((n, ms) ∷ container) =
    let rest = put_modules name modules container in
    if text_eq n name then (name, modules) ∷ container else (n, ms) ∷ rest

module _ {G S P W : Type 0} (makers : Makers G S P W) where
  -- the first loop of initModules
  unfoldable pub all_complete : List (PipeConfig G S P) → Bool
  all_complete [] = true
  all_complete (c ∷ pipes) =
      let rest = all_complete pipes in
      elim c.gatherer [
        | none ↦ false
        | some g ↦ elim c.sender [
          | none ↦ false
          | some s ↦ elim c.processor [ none ↦ false | some p ↦ rest ]
        ]
      ]

  -- The modules of one pipe; none is an error of a setter.
  unfoldable pub pipe_modules : G → S → P → Option (List (Module W))
  pipe_modules g s p =
      if not (makers.set_processor g p)
      then none
      else (if not (makers.set_gatherer p g)
          then none
          else (if not (makers.set_sender p s)
              then none
              else (if not (makers.set_sender_gatherer s g)
                  then none
                  else some
                      (makers.new_gatherer g ∷ makers.new_sender s ∷ makers.new_processor p ∷ []))))

  -- the second loop of initModules; a part that is missing would be a nil pointer here.
  unfoldable pub init_pipes :
      List (PipeConfig G S P) → ModuleContainer W → Option (ModuleContainer W)
  init_pipes [] container = some container
  init_pipes (c ∷ pipes) container = elim c.gatherer [
    | none ↦ none
    | some g ↦ elim c.sender [
      | none ↦ none
      | some s ↦ elim c.processor [
        | none ↦ none
        | some p ↦ elim (pipe_modules g s p) [
          | none ↦ none
          | some modules ↦ init_pipes pipes (put_modules c.pipe_name modules container)
        ]
      ]
    ]
  ]

  unfoldable pub init_modules : List (PipeConfig G S P) → Option (ModuleContainer W)
  init_modules pipes = if all_complete pipes then init_pipes pipes [] else none

module _ {W : Type 0} where
  -- all the modules in the order of the two loops over the container
  unfoldable pub all_modules : ModuleContainer W → List (Module W)
  all_modules [] = []
  all_modules ((n, ms) ∷ container) = ms ++ all_modules container

  unfoldable pub shutdown_all : List (Module W) → W → W
  shutdown_all [] w = w
  shutdown_all (m ∷ ms) w = shutdown_all ms (m.shutdown w)

  -- the loops of prepareModules, with the modules that were prepared
  unfoldable pub prepare_each : List (Module W) → List (Module W) → W → Bool × W
  prepare_each prepared [] w = (true, w)
  prepare_each prepared (m ∷ ms) w =
      let (fine, w') = m.prepare w in
      let rest = prepare_each (prepared ++ (m ∷ [])) ms w' in
      if fine then rest else (false, shutdown_all (prepared ++ (m ∷ [])) w')

  unfoldable pub prepare_modules : ModuleContainer W → W → Bool × W
  prepare_modules container w = prepare_each [] (all_modules container) w

  -- bootModules; the modules run at the same time, and the world here takes what they do one by one.
  unfoldable pub boot_modules : List (Module W) → W → W
  boot_modules [] w = w
  boot_modules (m ∷ ms) w = boot_modules ms (m.boot w)

module _ {W : Type 0} (globals : Globals W) where
  -- the end of Start, with the modules
  unfoldable pub boot : ModuleContainer W → W → Bool × W
  boot container w =
      let (prepared, w1) = prepare_modules container w in
      let (started, w2) = globals.start_sharing w1 in
      let (after, w3) = globals.after_sharing_start w2 in
      if not prepared
      then (false, w1)
      else (if not started
          then (false, w2)
          else (if not after then (false, w3) else (true, boot_modules (all_modules container) w3)))

module _ {G S P W : Type 0} (makers : Makers G S P W) (globals : Globals W) where
  -- the part of Start behind the deferred close of the shared plugins
  unfoldable pub run : List (PipeConfig G S P) → W → Bool × W
  run pipes w = elim (init_modules makers pipes) [
    | none ↦ (false, w)
    | some container ↦ boot globals container w
  ]

  -- Start
  unfoldable pub start : List (PipeConfig G S P) → W → Bool × W
  start pipes w =
      let (telemetry, w1) = globals.init_telemetry w in
      let (sharing, w2) = globals.prepare_sharing w1 in
      let (fine, w3) = run pipes w2 in
      if not telemetry
      then (false, w1)
      else (if not sharing then (false, w2) else (fine, globals.close_sharing w3))
