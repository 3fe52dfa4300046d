-- ===== src/Registry.antt =====
-- internal/pkg/plugin/registry.go: plugins by category and name.
use skywalking_satellite.Base.{
  ℕ, ◌≡◌, refl, sym, ap, ◌∙◌, Bool, true, false, ◌&&◌, Bool-cases, inl, inr, Option, none, some,
  List, [], ◌∷◌, update, ◌==◌, ==_iff, if◌then◌else◌,
}

-- The global registry: a map of names for each category, both given by numbers.
abbrev pub Reg : Type 0 → Type 0
Reg Plugin = List (ℕ × (ℕ → Option Plugin))

module _ {Plugin : Type 0} where
  -- `Reg[pluginType] = map[string]reflect.Value{}`
  unfoldable pub register_plugin_category : ℕ → Reg Plugin → Reg Plugin
  register_plugin_category category [] = (category, λ n. none) ∷ []
  register_plugin_category category ((c, names) ∷ reg) =
      let rest = register_plugin_category category reg in
      if c == category then (c, λ n. none) ∷ reg else (c, names) ∷ rest

  -- `implements` is Implements of the reflect package. The plugin goes into every category that it
  -- implements, and the flag says whether there is one; without one an error is logged.
  unfoldable pub register_plugin : (Plugin → ℕ → Bool) → Plugin → ℕ → Reg Plugin → Bool × Reg Plugin
  register_plugin implements plugin name [] = (false, [])
  register_plugin implements plugin name ((c, names) ∷ reg) =
      let (success, rest) = register_plugin implements plugin name reg in
      if implements plugin c
      then (true, (c, update names name (some plugin)) ∷ rest)
      else (success, (c, names) ∷ rest)

  -- `Reg[category]`; a category that is not there has no names.
  unfoldable pub category_names : ℕ → Reg Plugin → ℕ → Option Plugin
  category_names category [] n = none
  category_names category ((c, names) ∷ reg) n =
      let rest = category_names category reg n in if c == category then names n else rest

  -- nameFinder and the search of Get: none is a panic, for a configuration without a name or a name
  -- that is not registered. What Get does with the value is reflection.
  unfoldable pub get : ℕ → Option ℕ → Reg Plugin → Option Plugin
  get category none reg = none
  get category (some name) reg = category_names category reg name

  -- whether a category is in the registry
  unfoldable pub registered : ℕ → Reg Plugin → Bool
  registered category [] = false
  registered category ((c, names) ∷ reg) =
      let rest = registered category reg in if c == category then true else rest

  -- After the registration of a plugin, its name leads to it in every registered category that it
  -- implements; every other name, and every other category, answers as before.
  pub get-register_plugin :
      (implements : Plugin → ℕ → Bool) (plugin : Plugin) (name : ℕ) (reg : Reg Plugin)
      (category n : ℕ)
      → get category (some n) (register_plugin implements plugin name reg).1 ≡ (
          if registered category reg && (implements plugin category && (name == n))
          then some plugin
          else get category (some n) reg)
  unfolding get register_plugin category_names registered
  get-register_plugin implements plugin name [] category n = refl
  get-register_plugin implements plugin name ((c, names) ∷ reg) category n =
      let rest = get-register_plugin implements plugin name reg category n in
      elim (Bool-cases (c == category)) [
        | inl here ↦
            let same = ap (implements plugin) ((==_iff c category).0 here) in
            elim (Bool-cases (implements plugin c)) [
              | inl yes_it_does ↦ rw (yes_it_does, here, sym same ∙ yes_it_does) refl
              | inr no_it_does_not ↦ rw (no_it_does_not, here, sym same ∙ no_it_does_not) refl
            ]
        | inr there ↦ elim (Bool-cases (implements plugin c)) [
          | inl yes_it_does ↦ rw (yes_it_does, there) rest
          | inr no_it_does_not ↦ rw (no_it_does_not, there) rest
        ]
      ]
