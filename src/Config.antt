-- ===== src/Config.antt =====
-- internal/satellite/config/override_by_env.go: values `${NAME:default}` of the configuration are
-- replaced by environment variables.
pub mod Override
pub mod Common
mod Tests
use skywalking_satellite.Base.{
  ℕ, zero, suc, ◌+◌, ◌-◌, Bool, Option, none, some, List, [], ◌∷◌, ◌++◌, length, take, drop, ltb,
  ◌==◌, if◌then◌else◌,
}

-- A configuration value: what parseVal can give, a slice, and the two kinds of maps, with their
-- entries in the order of the range. A key of map[interface{}]interface{} that is not a string
-- would be a panic and is left out.
mutual
  pub data Value : Type 0 where
    string : List ℕ → Value
    slice : Values → Value
    string_map : Entries → Value
    any_map : Entries → Value
    other : ℕ → Value

  pub data Values : Type 0 where
    no_value : Values
    value_then : Value → Values → Values

  pub data Entries : Type 0 where
    no_entry : Entries
    entry_then : List ℕ → Value → Entries → Entries

abbrev pub colon : ℕ
colon = 58

-- strings.Index of a colon, from the index of the first character on.
unfoldable pub index_from : ℕ → List ℕ → Option ℕ
index_from i [] = none
index_from i (c ∷ cs) = let rest = index_from (i + 1) cs in if c == colon then some i else rest

-- `s[from:to]`, none where the bounds are a panic.
unfoldable pub substring : ℕ → ℕ → List ℕ → Option (List ℕ)
substring from to s =
    if ltb to from then none else (if ltb (length s) to then none else some (drop from (take to s)))

-- `matches` is the match of the regular expression, `getenv` os.Getenv, `parse_val` parseVal.
module _ (matches : List ℕ → Bool) (getenv : List ℕ → List ℕ) (parse_val : List ℕ → Value) where
  -- The variable's value, or the default when it is empty.
  unfoldable pub env_or : List ℕ → List ℕ → List ℕ
  env_or [] default_val = default_val
  env_or (c ∷ cs) default_val = c ∷ cs

  unfoldable pub override_at : List ℕ → Option ℕ → Option Value
  override_at s none = none
  override_at s (some index) = elim (substring 2 index s) [
    | none ↦ none
    | some env_name ↦ elim (substring (index + 1) (length s - 1) s) [
      | none ↦ none
      | some default_val ↦ some (parse_val (env_or (getenv env_name) default_val))
    ]
  ]

  -- overrideString; none is a panic.
  unfoldable pub override_string : List ℕ → Option Value
  override_string s =
      let found = override_at s (index_from 0 s) in if matches s then found else some (string s)

  abbrev then_entry : List ℕ → Option Value → Option Entries → Option Entries
  then_entry key (some v) (some rest) = some (entry_then key v rest)
  then_entry key none rest = none
  then_entry key (some v) none = none

  abbrev then_value : Option Value → Option Values → Option Values
  then_value (some v) (some rest) = some (value_then v rest)
  then_value none rest = none
  then_value (some v) none = none

  abbrev as_map : Option Entries → Option Value
  as_map none = none
  as_map (some entries) = some (string_map entries)

  abbrev as_slice : Option Values → Option Value
  as_slice none = none
  as_slice (some vs) = some (slice vs)

  unfoldable mutual
    -- one case of the switch of overrideMapStringInterface
    pub override_value : Value → Option Value
    override_value (string s) = override_string s
    override_value (slice vs) = as_slice (override_slice vs)
    override_value (string_map m) = as_map (override_map m)
    override_value (any_map m) = as_map (override_map m)
    override_value (other n) = some (other n)

    pub override_map : Entries → Option Entries
    override_map no_entry = some no_entry
    override_map (entry_then key v rest) = then_entry key (override_value v) (override_map rest)

    -- A value that is neither a string nor a map is not appended.
    pub override_slice : Values → Option Values
    override_slice no_value = some no_value
    override_slice (value_then (string s) rest) =
        then_value (override_string s) (override_slice rest)
    override_slice (value_then (string_map m) rest) =
        then_value (as_map (override_map m)) (override_slice rest)
    override_slice (value_then (any_map m) rest) =
        then_value (as_map (override_map m)) (override_slice rest)
    override_slice (value_then (slice vs) rest) = override_slice rest
    override_slice (value_then (other n) rest) = override_slice rest
