-- ===== src/Telemetry/Labels.antt =====
-- internal/satellite/telemetry/metricservice/base.go: label values, with the curried ones put in at
-- their indices, how they are compared and how they are hashed.
use Prim.Native.Nat.{bit_xor}
use skywalking_satellite.Base.{
  ℕ, zero, suc, ◌+◌, ◌*◌, ◌%◌, ◌^◌, Bool, true, false, Option, none, some, List, [], ◌∷◌, length,
  get_elem?, ◌==◌, if◌then◌else◌, Text, text_eq,
}

-- `curriedLabelValue`
pub record CurriedLabelValue : Type 0 where
  pub index : ℕ
  pub value : Text

-- The offset basis and the prime of fnv64a, and the byte behind every label.
abbrev pub offset64 : ℕ
offset64 = 14695981039346656037

abbrev pub prime64 : ℕ
prime64 = 1099511628211

abbrev pub separator_byte : ℕ
separator_byte = 255

unfoldable pub hash_new : ℕ
hash_new = offset64

-- `h ^= uint64(b); h *= prime64`
unfoldable pub hash_add_byte : ℕ → ℕ → ℕ
hash_add_byte h b = (bit_xor h b * prime64) % 2 ^ 64

unfoldable pub hash_add : ℕ → Text → ℕ
unfolding hash_add_byte
hash_add h [] = h
hash_add h (b ∷ s) = hash_add (hash_add_byte h b) s

-- The value of label i in all three loops, with the indices behind it: the next curried value if it
-- is that of label i, and otherwise the next of `lvs`. None is the panic of an index out of range.
unfoldable pub curried_at : List CurriedLabelValue → ℕ → ℕ → Option Text
curried_at curry i_curry i = elim (get_elem? curry i_curry) [
  | none ↦ none
  | some c ↦ if c.index == i then some c.value else none
]

unfoldable pub next_label : List Text → List CurriedLabelValue → ℕ → ℕ → ℕ → Option (Text × ℕ × ℕ)
unfolding curried_at
next_label lvs curry i i_curry i_lvs = elim (curried_at curry i_curry i) [
  | some v ↦ some (v, i_curry + 1, i_lvs)
  | none ↦ elim (get_elem? lvs i_lvs) [ none ↦ none | some v ↦ some (v, i_curry, i_lvs + 1) ]
]

module _ (lvs : List Text) (curry : List CurriedLabelValue) where
  -- the loop of inlineLabelValues over the labels from i on
  unfoldable pub inline_from : ℕ → ℕ → ℕ → ℕ → Option (List Text)
  inline_from zero i i_curry i_lvs = some []
  inline_from (suc n) i i_curry i_lvs = elim (next_label lvs curry i i_curry i_lvs) [
    | none ↦ none
    | some (v, i_curry', i_lvs') ↦ elim (inline_from n (i + 1) i_curry' i_lvs') [
      | none ↦ none
      | some vs ↦ some (v ∷ vs)
    ]
  ]

  unfoldable pub inline_label_values : Option (List Text)
  unfolding inline_from
  inline_label_values = inline_from (length lvs + length curry) 0 0 0

  -- the loop of matchLabelValues over the values
  unfoldable pub match_from : List Text → ℕ → ℕ → ℕ → Option Bool
  match_from [] i i_curry i_lvs = some true
  match_from (v ∷ vs) i i_curry i_lvs = elim (next_label lvs curry i i_curry i_lvs) [
    | none ↦ none
    | some (l, i_curry', i_lvs') ↦ elim (text_eq v l) [
      | true ↦ match_from vs (i + 1) i_curry' i_lvs'
      | false ↦ some false
    ]
  ]

  unfoldable pub match_label_values : List Text → Option Bool
  unfolding match_from
  match_label_values values =
      if length values == length lvs + length curry then match_from values 0 0 0 else some false

  -- the loop of hashLabelValues
  unfoldable pub hash_from : ℕ → ℕ → ℕ → ℕ → ℕ → Option ℕ
  hash_from zero i i_curry i_lvs h = some h
  hash_from (suc n) i i_curry i_lvs h = elim (next_label lvs curry i i_curry i_lvs) [
    | none ↦ none
    | some (v, i_curry', i_lvs') ↦
        hash_from n (i + 1) i_curry' i_lvs' (hash_add_byte (hash_add h v) separator_byte)
  ]

-- What a fnv64a hash of whole label values is: every value followed by the separator.
abbrev pub hash_values : ℕ → List Text → ℕ
hash_values h [] = h
hash_values h (v ∷ vs) = hash_values (hash_add_byte (hash_add h v) separator_byte) vs
