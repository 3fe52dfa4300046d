-- ===== src/Queues/Partition/Initialize.antt =====
-- Initialize of plugins/queue/partition/partitioned_queue.go, over what plugin.Get makes of the
-- configuration of a sub queue.
use skywalking_satellite.Base.{
  ℕ, zero, suc, ◌+◌, ◌≡◌, refl, sym, ap, ◌∙◌, Bool, Bool-cases, true, false, Option, none, some,
  List, [], ◌∷◌, ◌++◌, length, length-append, if◌then◌else◌, arith, inl, inr, Text, itoa, text_eq,
}
use skywalking_satellite.Config.Common.{
  AnyValue, text, other, PluginConfig, put, pipe_name_tag, common_key, initial_pipe_name,
  propagate_common_fields, CommonFields,
}

-- fmt.Sprintf with %s: of nil it is `%!s(<nil>)`. How it prints other values is an argument.
unfoldable pub print_value : (ℕ → Text) → Option AnyValue → Text
print_value print_other none = 37 ∷ 33 ∷ 115 ∷ 40 ∷ 60 ∷ 110 ∷ 105 ∷ 108 ∷ 62 ∷ 41 ∷ []
print_value print_other (some (text t)) = t
print_value print_other (some (other n)) = print_other n

-- the constant NameField: plugin_name
abbrev pub name_field : Text
name_field = 112 ∷ 108 ∷ 117 ∷ 103 ∷ 105 ∷ 110 ∷ 95 ∷ 110 ∷ 97 ∷ 109 ∷ 101 ∷ []

-- nameFinder: without the key, or when it is no text, it is a panic.
unfoldable pub name_finder : PluginConfig → Option Text
name_finder cfg = elim (cfg name_field) as (λ _. Option Text) [
  | none ↦ none
  | some (text name) ↦ some name
  | some (other n) ↦ none
]

abbrev pub minus_sign : ℕ
minus_sign = 45

-- A sub queue with its common field PipeName.
pub record SubQueue (State : Type 0) : Type 0 where
  pub pipe_name : Text
  pub state : State

-- The fields that Initialize writes.
pub record Partitions (State : Type 0) : Type 0 where
  pub config : PluginConfig
  pub sub_queues : List (SubQueue State)
  pub total_queue_size : ℕ

-- `known` tells whether a queue is registered by a name. `decoded` is what viper leaves in the field
-- PipeName of the queue of a name, or nothing when it reports an error, and `fresh` are the other
-- fields; `init` is Initialize of the sub
-- queue, which knows its pipe name, and answers true for no error; `register` is
-- registerQueueTelemetry.
module _ {State World : Type 0} (print_other : ℕ → Text) (known : Text → Bool)
    (decoded : Text → PluginConfig → Option Text) (fresh : Text → PluginConfig → State)
    (init : Text → State → World → Bool × (State × World)) (total_size : State → ℕ)
    (register : Text → List (SubQueue State) → World → World) where
  -- `p.config["pipe_name"] = fmt.Sprintf("%s-%d", p.config["pipe_name"], partition)`
  unfoldable pub rename : ℕ → PluginConfig → PluginConfig
  rename partition config =
      put pipe_name_tag
        (text (print_value print_other (config pipe_name_tag) ++ (minus_sign ∷ itoa partition)))
        config

  -- Initializing: an error of viper is a panic. The pipe name is that of the configuration.
  unfoldable pub initializing : Text → PluginConfig → Option (SubQueue State)
  initializing plugin config = elim (decoded plugin config) [
    | none ↦ none
    | some before ↦ elim (initial_pipe_name (λ _. before) config) [
      | none ↦ none
      | some name ↦ some (record { pipe_name = name; state = fresh plugin config })
    ]
  ]

  -- plugin.Get: a queue that is not registered is a panic.
  unfoldable pub get_queue : PluginConfig → Option (SubQueue State)
  get_queue config = elim (name_finder config) [
    | none ↦ none
    | some plugin ↦ if known plugin then initializing plugin config else none
  ]

  abbrev pub after_init : SubQueue State → Partitions State → State → Partitions State
  after_init q p s = record p {
    sub_queues = p.sub_queues ++ (record { pipe_name = q.pipe_name; state = s } ∷ []);
    total_queue_size = p.total_queue_size + total_size s;
  }

  -- The loop: the rounds left, and the partition. At an error it ends. The queues are those of the
  -- variable `queues`.
  unfoldable pub initialize_from :
      ℕ → ℕ → Partitions State → World → Option (Bool × (Partitions State × World))
  initialize_from zero partition p w = some (true, (p, w))
  initialize_from (suc rounds) partition p w =
      let renamed = record p { config = rename partition p.config } in
      elim (get_queue renamed.config) [
        | none ↦ none
        | some q ↦
            let (good, (s, w')) = init q.pipe_name q.state w in
            let rest = initialize_from rounds (partition + 1) (after_init q renamed s) w' in
            if good then rest else some (false, (renamed, w'))
      ]

  -- Behind the loop; after an error the sub queues are not set.
  abbrev pub finish :
      Text → Option (Bool × (Partitions State × World)) → Option (Bool × (Partitions State × World))
  finish pipe none = none
  finish pipe (some (false, (p, w))) = some (false, (record p { sub_queues = [] }, w))
  finish pipe (some (true, (p, w))) = some (true, (p, register pipe p.sub_queues w))

  unfoldable pub initialize :
      ℕ → Text → PluginConfig → World → Option (Bool × (Partitions State × World))
  initialize partition pipe config w = finish pipe (
      initialize_from partition 0
        (record { config = config; sub_queues = []; total_queue_size = 0 }) w)

  abbrev pub AllNamed : Text → List (SubQueue State) → Type 0
  AllNamed name [] = Unit {0}
  AllNamed name (q ∷ qs) = (q.pipe_name ≡ name) × AllNamed name qs

  AllNamed-append :
      (name : Text) (qs : List (SubQueue State)) (q : SubQueue State)
      → AllNamed name qs
      → q.pipe_name ≡ name
      → AllNamed name (qs ++ (q ∷ []))
  AllNamed-append name [] q h e = (e, tt)
  AllNamed-append name (r ∷ qs) q h e = (h.0, AllNamed-append name qs q h.1 e)

  -- Two configurations that are the same but for the names of the pipe.
  abbrev pub SameOthers : PluginConfig → PluginConfig → Type 0
  SameOthers pc config =
      (key : Text)
      → text_eq pipe_name_tag key ≡ false
      → text_eq (common_key pipe_name_tag) key ≡ false
      → config key ≡ pc key

  -- Viper reads the configuration for the queue, whatever text is the name of its pipe.
  abbrev pub Read : Text → PluginConfig → Type 0
  Read plugin pc =
      (config : PluginConfig) (name own : Text)
      → SameOthers pc config
      → config (common_key pipe_name_tag) ≡ some (text name)
      → config pipe_name_tag ≡ some (text own)
      → (before : Text) × (decoded plugin config ≡ some before)

  -- The name of the pipe in the configuration does not change, and neither do the other keys.
  abbrev pub Names : Text → PluginConfig → PluginConfig → Type 0
  Names name pc config =
      (config (common_key pipe_name_tag) ≡ some (text name)) × SameOthers pc config

  rename-Names :
      (name : Text) (partition : ℕ) (pc config : PluginConfig)
      → Names name pc config
      → Names name pc (rename partition config)
  unfolding rename skywalking_satellite.Base.list_eq
  rename-Names name partition pc config h = (h.0, λ key a b. rw a (h.1 key a b))

  rename-text :
      (partition : ℕ) (config : PluginConfig)
      → (own : Text) × (rename partition config pipe_name_tag ≡ some (text own))
  unfolding rename skywalking_satellite.Base.list_eq
  rename-text partition config = (_, refl)

  get_queue-Names :
      (name plugin own : Text) (pc config : PluginConfig)
      → pc name_field ≡ some (text plugin)
      → known plugin ≡ true
      → Read plugin pc
      → Names name pc config
      → config pipe_name_tag ≡ some (text own)
      → get_queue config ≡ some (record { pipe_name = name; state = fresh plugin config })
  unfolding get_queue initializing name_finder initial_pipe_name skywalking_satellite.Base.list_eq
  get_queue-Names name plugin own pc config asked there reads h e =
      let (before, read) = reads config name own h.1 h.0 e in
      let same = h.1 name_field refl refl ∙ asked in
      rw (get_queue, name_finder, same, there, initializing, read, initial_pipe_name, h.0) refl

  -- What the loop answers.
  abbrev pub AllTheSame : ℕ → Text → Option (Bool × (Partitions State × World)) → Type 0
  AllTheSame n name none = ⊥
  AllTheSame n name (some (false, r)) = Unit {0}
  AllTheSame n name (some (true, (p, w))) = (length p.sub_queues ≡ n) × AllNamed name p.sub_queues

  initialize_from-AllTheSame :
      (plugin : Text) (pc : PluginConfig)
      → pc name_field ≡ some (text plugin)
      → known plugin ≡ true
      → Read plugin pc
      → (rounds partition n : ℕ) (name : Text) (p : Partitions State) (w : World)
      → Names name pc p.config
      → AllNamed name p.sub_queues
      → length p.sub_queues + rounds ≡ n
      → AllTheSame n name (initialize_from rounds partition p w)
  unfolding initialize_from
  initialize_from-AllTheSame plugin pc asked there reads zero partition n name p w names named
        count =
      (omega (arith, count), named)
  initialize_from-AllTheSame plugin pc asked there reads (suc rounds) partition n name p w names
        named count =
      let config = rename partition p.config in
      let (own, own_text) = rename-text partition p.config in
      let renamed = rename-Names name partition pc p.config names in
      elim (Bool-cases (init name (fresh plugin config) w).0) [
        | inl fine ↦
            rw
              (
                initialize_from,
                get_queue-Names name plugin own pc config asked there reads renamed own_text,
                fine,
              )
              (initialize_from-AllTheSame plugin pc asked there reads rounds (partition + 1) n name
                _ (init name (fresh plugin config) w).1.1 renamed
                (AllNamed-append name p.sub_queues
                  (record { pipe_name = name; state = (init name (fresh plugin config) w).1.0 })
                  named refl)
                (omega (
                  arith,
                  count,
                  length-append p.sub_queues (
                      record { pipe_name = name; state = (init name (fresh plugin config) w).1.0 }
                      ∷ []),
                )))
        | inr failed ↦
            rw
              (
                initialize_from,
                get_queue-Names name plugin own pc config asked there reads renamed own_text,
                failed,
              )
              tt
      ]

  finish-AllTheSame :
      (n : ℕ) (name pipe : Text) (r : Option (Bool × (Partitions State × World)))
      → AllTheSame n name r
      → AllTheSame n name (finish pipe r)
  finish-AllTheSame n name pipe none h = h
  finish-AllTheSame n name pipe (some (false, r)) h = tt
  finish-AllTheSame n name pipe (some (true, r)) h = h

  -- With a configuration that the loader has filled, Initialize does not panic, and when it goes
  -- well there is a sub queue for every partition, and they all have the same pipe name, that of
  -- the pipe: the partition is not told apart. The configuration names a queue that is registered,
  -- and viper reads it for that queue with any text as the name of the pipe.
  pub initialize-AllTheSame :
      (n : ℕ) (cf : CommonFields) (pipe plugin : Text) (pc : PluginConfig) (w : World)
      → pc name_field ≡ some (text plugin)
      → known plugin ≡ true
      → Read plugin pc
      → AllTheSame n cf.pipe_name (initialize n pipe (propagate_common_fields cf pc) w)
  unfolding initialize propagate_common_fields skywalking_satellite.Config.Common.propagate_fields
      skywalking_satellite.Base.list_eq
  initialize-AllTheSame n cf pipe plugin pc w asked there reads =
      finish-AllTheSame n cf.pipe_name pipe _ (
        initialize_from-AllTheSame plugin pc asked there reads n 0 n cf.pipe_name _ w
          (refl, λ key a b. rw b refl) tt (omega arith))
