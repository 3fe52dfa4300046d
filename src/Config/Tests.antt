-- ===== src/Config/Tests.antt =====
-- The override at a small configuration.
use skywalking_satellite.Config.Common.{
  PipeConfig, plugin_config, plugin_configs, other_field, ReachesPipes, propagate_in_pipes,
  propagate_in_pipes-ReachesPipes,
}
use skywalking_satellite.Base.{ℕ, refl, Bool, true, false, List, [], ◌∷◌, none}
use skywalking_satellite.Config.{string, Entries, no_entry, entry_then, override_string}
use skywalking_satellite.Config.Override.{
  pattern_text, PlainEntries, override_string_pattern, Replaced,
}

abbrev always : List ℕ → Bool
always s = true

abbrev never : List ℕ → Bool
never s = false

abbrev no_env : List ℕ → List ℕ
no_env name = []

-- an environment in which every variable is `7`
abbrev seven_env : List ℕ → List ℕ
seven_env name = 55 ∷ []

override_string_pattern_example : Replaced always seven_env string (55 ∷ []) (49 ∷ []) (
    override_string always seven_env string
      (pattern_text always seven_env string (65 ∷ []) (49 ∷ [])))
override_string_pattern_example =
    override_string_pattern always seven_env string (65 ∷ []) (49 ∷ []) (refl, tt) refl

abbrev plain_map : Entries
plain_map = entry_then (97 ∷ []) (string (98 ∷ [])) no_entry

plain_map-PlainEntries : PlainEntries never no_env string plain_map
unfolding PlainEntries
plain_map-PlainEntries = (refl, tt)

-- A pipe with one plugin in its gatherer.
abbrev one_pipe : PipeConfig
one_pipe = record {
  pipe_common_config = record { pipe_name = 112 ∷ [] };
  gatherer = record { common_fields = none; fields = plugin_config (λ k. none) ∷ [] };
  sender = record { common_fields = none; fields = other_field ∷ plugin_configs [] ∷ [] };
  processor = record { common_fields = none; fields = [] };
}

propagate_in_pipes-ReachesPipes_example :
    ReachesPipes (one_pipe ∷ []) (propagate_in_pipes (one_pipe ∷ []))
propagate_in_pipes-ReachesPipes_example = propagate_in_pipes-ReachesPipes (one_pipe ∷ [])
