-- ===== src/Config/Common.antt =====
-- internal/satellite/config/loader.go, internal/pkg/config and the end of Initializing in
-- internal/pkg/plugin/registry.go: the common fields of a pipe reach the plugins that it
-- configures.
use skywalking_satellite.Base.{
  ℕ, ◌≡◌, refl, sym, ap, ◌∙◌, Bool, Bool-cases, true, false, Option, none, some, List, [], ◌∷◌,
  ◌++◌, map, if◌then◌else◌, inl, inr, Text, text_eq, text_eq_iff,
}

-- `interface{}`: a text or another value.
pub data AnyValue : Type 0 where
  text : Text → AnyValue
  other : ℕ → AnyValue

-- plugin.Config; a missing key is nil.
abbrev pub PluginConfig : Type 0
PluginConfig = Text → Option AnyValue

abbrev pub put : Text → AnyValue → PluginConfig → PluginConfig
put key v pc = λ k. if text_eq key k then some v else pc k

pub record CommonFields : Type 0 where
  pub pipe_name : Text

-- The constants, as bytes: commonfields, the underscore and pipe_name.
abbrev pub common_fields_name : Text
common_fields_name = 99 ∷ 111 ∷ 109 ∷ 109 ∷ 111 ∷ 110 ∷ 102 ∷ 105 ∷ 101 ∷ 108 ∷ 100 ∷ 115 ∷ []

abbrev pub underscore : ℕ
underscore = 95

abbrev pub pipe_name_tag : Text
pipe_name_tag = 112 ∷ 105 ∷ 112 ∷ 101 ∷ 95 ∷ 110 ∷ 97 ∷ 109 ∷ 101 ∷ []

abbrev pub common_key : Text → Text
common_key tag = common_fields_name ++ (underscore ∷ tag)

-- What the reflection on CommonFields gives: the tags and the values of its fields.
abbrev pub fields_of : CommonFields → List (Text × Text)
fields_of cf = (pipe_name_tag, cf.pipe_name) ∷ []

-- The loop of propagateCommonFields. A field without a tag is passed over.
unfoldable pub propagate_fields : List (Text × Text) → PluginConfig → PluginConfig
propagate_fields [] pc = pc
propagate_fields ((tag, v) ∷ fields) pc =
    propagate_fields fields (if text_eq tag [] then pc else put (common_key tag) (text v) pc)

unfoldable pub propagate_common_fields : CommonFields → PluginConfig → PluginConfig
propagate_common_fields cf pc = propagate_fields (fields_of cf) pc

-- The value of a field of a struct: plugin configurations, one of them, or anything else, which
-- nil is as well.
pub data FieldValue : Type 0 where
  plugin_configs : List PluginConfig → FieldValue
  plugin_config : PluginConfig → FieldValue
  other_field : FieldValue

unfoldable pub propagate_field : CommonFields → FieldValue → FieldValue
propagate_field cf (plugin_configs pcs) = plugin_configs (map (propagate_common_fields cf) pcs)
propagate_field cf (plugin_config pc) = plugin_config (propagate_common_fields cf pc)
propagate_field cf other_field = other_field

unfoldable pub propagate_in_struct : CommonFields → List FieldValue → List FieldValue
propagate_in_struct cf fields = map (propagate_field cf) fields

-- The configuration of a gatherer, a sender or a processor.
pub record ModuleConfig : Type 0 where
  pub common_fields : Option CommonFields
  pub fields : List FieldValue

pub record PipeConfig : Type 0 where
  pub pipe_common_config : CommonFields
  pub gatherer : ModuleConfig
  pub sender : ModuleConfig
  pub processor : ModuleConfig

abbrev propagate_in_module : CommonFields → ModuleConfig → ModuleConfig
propagate_in_module cf m = record {
  common_fields = some cf;
  fields = propagate_in_struct cf m.fields;
}

unfoldable pub propagate_in_pipes : List PipeConfig → List PipeConfig
propagate_in_pipes [] = []
propagate_in_pipes (p ∷ ps) =
    (record p {
      gatherer = propagate_in_module p.pipe_common_config p.gatherer;
      sender = propagate_in_module p.pipe_common_config p.sender;
      processor = propagate_in_module p.pipe_common_config p.processor;
    })
    ∷ propagate_in_pipes ps

-- The body of the last loop of Initializing: a value that is there is set, which is a panic for one
-- that is no text.
abbrev set_field : Option AnyValue → Text → Option Text
set_field none before = some before
set_field (some (text v)) before = some v
set_field (some (other n)) before = none

-- The pipe name of a plugin after Initializing; `decoded` is what viper has left in the field.
unfoldable pub initial_pipe_name : (PluginConfig → Text) → PluginConfig → Option Text
initial_pipe_name decoded cfg = set_field (cfg (common_key pipe_name_tag)) (decoded cfg)

-- The plugin of the configuration gets the pipe's name, and everything else is as it was.
pub record Reaches (cf : CommonFields) (before after : PluginConfig) : Type 0 where
  pub named : (decoded : PluginConfig → Text) → initial_pipe_name decoded after ≡ some cf.pipe_name
  pub kept : (key : Text) → text_eq (common_key pipe_name_tag) key ≡ false → after key ≡ before key

abbrev pub ReachesEach : CommonFields → List PluginConfig → List PluginConfig → Type 0
ReachesEach cf [] [] = Unit {0}
ReachesEach cf [] (_ ∷ _) = ⊥
ReachesEach cf (_ ∷ _) [] = ⊥
ReachesEach cf (b ∷ bs) (a ∷ as') = Reaches cf b a × ReachesEach cf bs as'

abbrev pub ReachesField : CommonFields → FieldValue → FieldValue → Type 0
ReachesField cf (plugin_configs b) (plugin_configs a) = ReachesEach cf b a
ReachesField cf (plugin_config b) (plugin_config a) = Reaches cf b a
ReachesField cf other_field other_field = Unit {0}
ReachesField cf _ _ = ⊥

abbrev pub ReachesFields : CommonFields → List FieldValue → List FieldValue → Type 0
ReachesFields cf [] [] = Unit {0}
ReachesFields cf [] (_ ∷ _) = ⊥
ReachesFields cf (_ ∷ _) [] = ⊥
ReachesFields cf (b ∷ bs) (a ∷ as') = ReachesField cf b a × ReachesFields cf bs as'

abbrev pub ReachesModule : CommonFields → ModuleConfig → ModuleConfig → Type 0
ReachesModule cf b a = (a.common_fields ≡ some cf) × ReachesFields cf b.fields a.fields

abbrev pub ReachesPipes : List PipeConfig → List PipeConfig → Type 0
ReachesPipes [] [] = Unit {0}
ReachesPipes [] (_ ∷ _) = ⊥
ReachesPipes (_ ∷ _) [] = ⊥
ReachesPipes (b ∷ bs) (a ∷ as') =
    (a.pipe_common_config ≡ b.pipe_common_config)
    × ReachesModule b.pipe_common_config b.gatherer a.gatherer
    × ReachesModule b.pipe_common_config b.sender a.sender
    × ReachesModule b.pipe_common_config b.processor a.processor
    × ReachesPipes bs as'

pub propagate_common_fields-Reaches :
    (cf : CommonFields) (pc : PluginConfig) → Reaches cf pc (propagate_common_fields cf pc)
unfolding propagate_common_fields propagate_fields initial_pipe_name
    skywalking_satellite.Base.list_eq
propagate_common_fields-Reaches cf pc = record {
  named = λ decoded. refl;
  kept = λ key h. rw h refl;
}

map-ReachesEach :
    (cf : CommonFields) (pcs : List PluginConfig)
    → ReachesEach cf pcs (map (propagate_common_fields cf) pcs)
map-ReachesEach cf [] = tt
map-ReachesEach cf (pc ∷ pcs) = (propagate_common_fields-Reaches cf pc, map-ReachesEach cf pcs)

propagate_field-ReachesField :
    (cf : CommonFields) (f : FieldValue) → ReachesField cf f (propagate_field cf f)
unfolding propagate_field
propagate_field-ReachesField cf (plugin_configs pcs) = map-ReachesEach cf pcs
propagate_field-ReachesField cf (plugin_config pc) = propagate_common_fields-Reaches cf pc
propagate_field-ReachesField cf other_field = tt

propagate_in_struct-ReachesFields :
    (cf : CommonFields) (fs : List FieldValue) → ReachesFields cf fs (propagate_in_struct cf fs)
unfolding propagate_in_struct
propagate_in_struct-ReachesFields cf [] = tt
propagate_in_struct-ReachesFields cf (f ∷ fs) =
    (propagate_field-ReachesField cf f, propagate_in_struct-ReachesFields cf fs)

-- Every module of every pipe gets the common fields of its pipe, and so does every plugin that it
-- configures: initialized from its configuration, the plugin has the name of the pipe, whatever
-- was decoded before. All other keys of the configurations are as they were.
pub propagate_in_pipes-ReachesPipes :
    (ps : List PipeConfig) → ReachesPipes ps (propagate_in_pipes ps)
unfolding propagate_in_pipes
propagate_in_pipes-ReachesPipes [] = tt
propagate_in_pipes-ReachesPipes (p ∷ ps) = (
  refl,
  (refl, propagate_in_struct-ReachesFields p.pipe_common_config p.gatherer.fields),
  (refl, propagate_in_struct-ReachesFields p.pipe_common_config p.sender.fields),
  (refl, propagate_in_struct-ReachesFields p.pipe_common_config p.processor.fields),
  propagate_in_pipes-ReachesPipes ps,
)
