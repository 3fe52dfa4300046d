-- ===== src/Boot/Tests.antt =====
-- The start with a pipe of which one module fails.
use skywalking_satellite.Base.{ℕ, ◌+◌, true, some, List, [], ◌∷◌, ltb}
use skywalking_satellite.Boot.{Module, Globals, PipeConfig, Makers, ModuleContainer}

-- A module by its number; number 0 cannot be prepared. The world is what was done.
abbrev numbered : ℕ → Module (List ℕ)
numbered n = record {
  prepare = λ w. (ltb 0 n, (10 + n) ∷ w);
  boot = λ w. (20 + n) ∷ w;
  shutdown = λ w. (30 + n) ∷ w;
}

abbrev makers : Makers ℕ ℕ ℕ (List ℕ)
makers = record {
  new_gatherer = numbered;
  new_sender = numbered;
  new_processor = numbered;
  set_processor = λ g p. true;
  set_gatherer = λ p g. true;
  set_sender = λ p s. true;
  set_sender_gatherer = λ s g. true;
}

abbrev globals : Globals (List ℕ)
globals = record {
  init_telemetry = λ w. (true, w);
  prepare_sharing = λ w. (true, 1 ∷ w);
  start_sharing = λ w. (true, 2 ∷ w);
  close_sharing = λ w. 3 ∷ w;
  after_sharing_start = λ w. (true, w);
}

abbrev pipe : ℕ → ℕ → ℕ → PipeConfig ℕ ℕ ℕ
pipe g s p = record { pipe_name = []; gatherer = some g; sender = some s; processor = some p }

abbrev contained : ℕ → ℕ → ℕ → ModuleContainer (List ℕ)
contained g s p = ([], numbered g ∷ numbered s ∷ numbered p ∷ []) ∷ []
