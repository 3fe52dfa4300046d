-- ===== src/Boot/Phases.antt =====
-- How Start ends when every module can be prepared, and when one cannot.
use skywalking_satellite.Base.{
  ◌≡◌, sym, ap, ◌∙◌, Bool, true, false, some, List, [], ◌∷◌, ◌++◌, append_assoc, append-nil,
}
use skywalking_satellite.Boot.{
  Module, Globals, PipeConfig, Makers, ModuleContainer, init_modules, all_modules, prepare_each,
  prepare_modules, boot_modules, boot, run, start,
}

module _ {W : Type 0} where
  -- the modules are prepared one after another without an error, from one world to another
  abbrev pub Prepare : List (Module W) → W → W → Type 0
  Prepare [] w end = w ≡ end
  Prepare (m ∷ ms) w end = ((m.prepare w).0 ≡ true) × Prepare ms (m.prepare w).1 end

  prepare_each-append :
      (before ms prepared : List (Module W)) (w end : W)
      → Prepare before w end
      → prepare_each prepared (before ++ ms) w ≡ prepare_each (prepared ++ before) ms end
  unfolding prepare_each
  prepare_each-append [] ms prepared w end h = rw (append-nil, h)
  prepare_each-append (m ∷ before) ms prepared w end h =
      rw (prepare_each, h.0)
        (prepare_each-append before ms (prepared ++ (m ∷ [])) (m.prepare w).1 end h.1
          ∙ ap (λ l. prepare_each l ms end) (append_assoc prepared (m ∷ []) before))

  prepare_modules-Prepare :
      (container : ModuleContainer W) (w end : W)
      → Prepare (all_modules container) w end
      → prepare_modules container w ≡ (true, end)
  unfolding prepare_modules prepare_each
  prepare_modules-Prepare container w end h =
      ap (λ l. prepare_each [] l w) (sym (append-nil (all_modules container)))
      ∙ prepare_each-append (all_modules container) [] [] w end h

  -- what makes the preparing stop
  pub record StopsAt (container : ModuleContainer W) (w last : W) (before : List (Module W))
      (bad : Module W) : Type 0 where
    pub behind : List (Module W)
    pub all : all_modules container ≡ before ++ (bad ∷ behind)
    pub end : W
    pub fine : Prepare before w end
    pub fails : bad.prepare end ≡ (false, last)

module _ {G S P W : Type 0} (makers : Makers G S P W) (globals : Globals W) where
  -- telemetry.Init and sharing.Prepare go well, and lead to a world
  abbrev pub Begins : W → W → Type 0
  Begins w w' =
      ((globals.init_telemetry w).0 ≡ true)
      × (globals.prepare_sharing (globals.init_telemetry w).1 ≡ (true, w'))

  start-Begins :
      (pipes : List (PipeConfig G S P)) (container : ModuleContainer W) (w w' : W) {r : Bool × W}
      → Begins w w'
      → init_modules makers pipes ≡ some container
      → boot globals container w' ≡ r
      → start makers globals pipes w ≡ (r.0, globals.close_sharing r.1)
  unfolding start run
  start-Begins pipes container w w' {r} begins made booted =
      let ran : run makers globals pipes w' ≡ r = rw (run, made) booted in
      rw (start, begins.0, ap (λ (p : Bool × W). p.0) begins.1, ap (λ (p : Bool × W). p.1) begins.1)
        (ap (λ (p : Bool × W). (p.0, globals.close_sharing p.1)) ran)

  -- When nothing fails, the modules are prepared, the shared plugins started, the modules booted, and
  -- after these the shared plugins are closed.
  pub start-Prepare :
      (pipes : List (PipeConfig G S P)) (container : ModuleContainer W) (w w' end w1 w2 : W)
      → Begins w w'
      → init_modules makers pipes ≡ some container
      → Prepare (all_modules container) w' end
      → globals.start_sharing end ≡ (true, w1)
      → globals.after_sharing_start w1 ≡ (true, w2)
      → start makers globals pipes w
        ≡ (true, globals.close_sharing (boot_modules (all_modules container) w2))
  unfolding boot
  start-Prepare pipes container w w' end w1 w2 begins made fine started after =
      let prepared = prepare_modules-Prepare container w' end fine in
      start-Begins pipes container w w' begins made (
        rw (
          boot,
          ap (λ (p : Bool × W). p.0) prepared,
          ap (λ (p : Bool × W). p.1) prepared,
          ap (λ (p : Bool × W). p.0) started,
          ap (λ (p : Bool × W). p.1) started,
          ap (λ (p : Bool × W). p.0) after,
          ap (λ (p : Bool × W). p.1) after,
        ))
