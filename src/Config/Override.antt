-- ===== src/Config/Override.antt =====
-- What the override by environment variables comes to.
use skywalking_satellite.Base.{
  ℕ, suc, ◌+◌, ◌-◌, ◌≡◌, refl, sym, ap, ap₂, ◌∙◌, Bool, true, false, some, List, [], ◌∷◌, ◌++◌,
  append_assoc, length, length-append, take, drop, ltb, ◌==◌, arith, Option, inl, subst, ◌⊎◌, inr,
}
use skywalking_satellite.Config.{
  Value, string, slice, string_map, any_map, other, Values, no_value, value_then, Entries, no_entry,
  entry_then, colon, index_from, substring, env_or, override_at, override_string, override_value,
  override_map, override_slice, then_entry, then_value, as_map, as_slice,
}

-- no colon among these characters
abbrev pub NoColon : List ℕ → Type 0
NoColon [] = Unit {0}
NoColon (c ∷ cs) = (c == colon ≡ false) × NoColon cs

index_from-NoColon :
    (i : ℕ) (name rest : List ℕ)
    → NoColon name
    → index_from i (name ++ (colon ∷ rest)) ≡ some (i + length name)
unfolding index_from
index_from-NoColon i [] rest h = ap some (omega arith)
index_from-NoColon i (c ∷ name) rest h =
    rw h.0 (index_from-NoColon (i + 1) name rest h.1 ∙ ap some (omega arith))

take-front : (b c : List ℕ) → take (length b) (b ++ c) ≡ b
take-front [] c = refl
take-front (x ∷ b) c = ap (λ l. x ∷ l) (take-front b c)

middle : (a b c : List ℕ) → drop (length a) (take (length a + length b) (a ++ (b ++ c))) ≡ b
middle [] b c =
    let e : 0 + length b ≡ length b = omega arith in ap (λ n. take n (b ++ c)) e ∙ take-front b c
middle (x ∷ a) b c =
    let e : length (x ∷ a) + length b ≡ suc (length a + length b) = omega arith in
    ap (λ n. drop (length (x ∷ a)) (take n (x ∷ (a ++ (b ++ c))))) e ∙ middle a b c

substring-middle :
    (from to : ℕ) (a b c : List ℕ)
    → from ≡ length a
    → to ≡ length a + length b
    → substring from to (a ++ (b ++ c)) ≡ some b
unfolding substring
substring-middle from to a b c e f =
    let ordered : ltb to from ≡ false = ground (arith, e, f) in
    let inside : ltb (length (a ++ (b ++ c))) to ≡ false =
      ground (arith, f, length-append a (b ++ c), length-append b c) in
    rw (ordered, inside) (ap some (ap₂ (λ x y. drop x (take y (a ++ (b ++ c)))) e f ∙ middle a b c))

module _ (matches : List ℕ → Bool) (getenv : List ℕ → List ℕ) (parse_val : List ℕ → Value) where
  override_at-some :
      (s name default_val : List ℕ) (index : ℕ)
      → substring 2 index s ≡ some name
      → substring (index + 1) (length s - 1) s ≡ some default_val
      → override_at matches getenv parse_val s (some index)
        ≡ some (parse_val (env_or matches getenv parse_val (getenv name) default_val))
  unfolding override_at
  override_at-some s name default_val index h k = rw (h, k, override_at) refl

  -- The text `${name:default}`.
  abbrev pub pattern_text : List ℕ → List ℕ → List ℕ
  pattern_text name default_val = (36 ∷ 123 ∷ name) ++ (colon ∷ (default_val ++ (125 ∷ [])))

  override_string-env_or :
      (name default_val : List ℕ)
      → NoColon name
      → matches (pattern_text name default_val) ≡ true
      → override_string matches getenv parse_val (pattern_text name default_val)
        ≡ some (parse_val (env_or matches getenv parse_val (getenv name) default_val))
  unfolding override_string
  override_string-env_or name default_val h m = rw m (
      ap (override_at matches getenv parse_val s)
        (index_from-NoColon 0 (36 ∷ 123 ∷ name) (default_val ++ (125 ∷ [])) (refl, (refl, h)))
      ∙ override_at-some s name default_val (0 + length (36 ∷ 123 ∷ name))
          (substring-middle 2 (0 + length (36 ∷ 123 ∷ name)) (36 ∷ 123 ∷ []) name
            (colon ∷ (default_val ++ (125 ∷ []))) refl (omega arith))
          (ap (substring (0 + length (36 ∷ 123 ∷ name) + 1) (length s - 1))
              (sym (append_assoc (36 ∷ 123 ∷ name) (colon ∷ []) (default_val ++ (125 ∷ []))))
            ∙ substring-middle (0 + length (36 ∷ 123 ∷ name) + 1) (length s - 1)
                ((36 ∷ 123 ∷ name) ++ (colon ∷ [])) default_val (125 ∷ [])
                (omega (arith, length-append (36 ∷ 123 ∷ name) (colon ∷ [])))
                (omega (arith, size, length-append (36 ∷ 123 ∷ name) (colon ∷ [])))))
    where
      s : List ℕ
      s = pattern_text name default_val

      size : length s ≡ length (36 ∷ 123 ∷ name) + (1 + (length default_val + 1))
      size = omega (
        arith,
        length-append (36 ∷ 123 ∷ name) (colon ∷ (default_val ++ (125 ∷ []))),
        length-append default_val (125 ∷ []),
      )

  -- What takes the place of the text: the variable, unless that is empty.
  abbrev pub Replaced : List ℕ → List ℕ → Option Value → Type 0
  Replaced variable default_val result =
      ((variable ≡ []) × (result ≡ some (parse_val default_val)))
      ⊎ ((c : ℕ) × (cs : List ℕ) × (variable ≡ c ∷ cs) × (result ≡ some (parse_val (c ∷ cs))))

  env_or-Replaced :
      (variable default_val : List ℕ)
      → Replaced variable default_val
          (some (parse_val (env_or matches getenv parse_val variable default_val)))
  unfolding env_or
  env_or-Replaced [] default_val = inl (refl, refl)
  env_or-Replaced (c ∷ cs) default_val = inr (c, cs, refl, refl)

  -- A text `${name:default}` that the regular expression matches is replaced by what is parsed from
  -- the default when the variable of this name is empty, and otherwise by what is parsed from the
  -- variable. The name has no colon.
  pub override_string_pattern :
      (name default_val : List ℕ)
      → NoColon name
      → matches (pattern_text name default_val) ≡ true
      → Replaced
          (getenv name)
          default_val
          (override_string matches getenv parse_val (pattern_text name default_val))
  override_string_pattern name default_val h m =
      subst (Replaced (getenv name) default_val) (sym (override_string-env_or name default_val h m))
        (env_or-Replaced (getenv name) default_val)

  unfoldable mutual
    -- A value that the override has no reason to change: no string matches, and a slice holds strings
    -- and string maps only.
    pub Plain : Value → Type 0
    Plain (string s) = matches s ≡ false
    Plain (slice vs) = PlainValues vs
    Plain (string_map m) = PlainEntries m
    Plain (any_map m) = ⊥
    Plain (other n) = Unit {0}

    pub PlainValues : Values → Type 0
    PlainValues no_value = Unit {0}
    PlainValues (value_then (string s) rest) = (matches s ≡ false) × PlainValues rest
    PlainValues (value_then (string_map m) rest) = PlainEntries m × PlainValues rest
    PlainValues (value_then (slice vs) rest) = ⊥
    PlainValues (value_then (any_map m) rest) = ⊥
    PlainValues (value_then (other n) rest) = ⊥

    pub PlainEntries : Entries → Type 0
    PlainEntries no_entry = Unit {0}
    PlainEntries (entry_then key v rest) = Plain v × PlainEntries rest

  string-Plain :
      (s : List ℕ)
      → matches s ≡ false
      → override_string matches getenv parse_val s ≡ some (string s)
  unfolding override_string
  string-Plain s h = rw h refl

  mutual
    unfolding override_value Plain

    value-Plain : (v : Value) → Plain v → override_value matches getenv parse_val v ≡ some v
    value-Plain (string s) h = string-Plain s h
    value-Plain (slice vs) h = ap (as_slice matches getenv parse_val) (values-PlainValues vs h)
    value-Plain (string_map m) h = ap (as_map matches getenv parse_val) (entries-PlainEntries m h)
    value-Plain (any_map m) h = absurd h
    value-Plain (other n) h = refl

    values-PlainValues :
        (vs : Values) → PlainValues vs → override_slice matches getenv parse_val vs ≡ some vs
    values-PlainValues no_value h = refl
    values-PlainValues (value_then (string s) rest) h =
        ap₂ (then_value matches getenv parse_val) (string-Plain s h.0) (values-PlainValues rest h.1)
    values-PlainValues (value_then (string_map m) rest) h =
        ap₂ (then_value matches getenv parse_val)
          (ap (as_map matches getenv parse_val) (entries-PlainEntries m h.0))
          (values-PlainValues rest h.1)
    values-PlainValues (value_then (slice vs) rest) h = absurd h
    values-PlainValues (value_then (any_map m) rest) h = absurd h
    values-PlainValues (value_then (other n) rest) h = absurd h

    entries-PlainEntries :
        (m : Entries) → PlainEntries m → override_map matches getenv parse_val m ≡ some m
    entries-PlainEntries no_entry h = refl
    entries-PlainEntries (entry_then key v rest) h =
        ap₂ (then_entry matches getenv parse_val key) (value-Plain v h.0)
          (entries-PlainEntries rest h.1)

  -- A configuration in which no string matches and slices hold strings and string maps only goes
  -- through the override unchanged, whatever the environment.
  pub override_map-PlainEntries :
      (m : Entries) → PlainEntries m → override_map matches getenv parse_val m ≡ some m
  override_map-PlainEntries m h = entries-PlainEntries m h
