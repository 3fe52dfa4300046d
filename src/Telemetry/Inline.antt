-- ===== src/Telemetry/Inline.antt =====
-- The three loops over label values do with the values what inlineLabelValues makes of them.
use skywalking_satellite.Base.{
  ℕ, zero, suc, ◌+◌, ◌≡◌, ap, ◌∙◌, some, List, [], ◌∷◌, length, Text, texts_eq, list_eq, arith,
  Option-cases, inl, inr, texts_eq_iff, ◌==◌, false, Bool-cases, ==_iff,
}
use skywalking_satellite.Telemetry.Labels.{
  CurriedLabelValue, next_label, inline_from, inline_label_values, match_from, match_label_values,
  hash_from, hash_values, hash_add, hash_add_byte, separator_byte, hash_new,
}

module _ (lvs : List Text) (curry : List CurriedLabelValue) where
  length-inline_from :
      (n i i_curry i_lvs : ℕ) {full : List Text}
      → inline_from lvs curry n i i_curry i_lvs ≡ some full
      → length full ≡ n
  unfolding inline_from
  length-inline_from zero i i_curry i_lvs h = ground arith
  length-inline_from (suc n) i i_curry i_lvs {full} h =
      elim (Option-cases (next_label lvs curry i i_curry i_lvs)) [
        | inl e ↦ ground arith
        | inr ((v, ic, il), e) ↦ elim (Option-cases (inline_from lvs curry n (i + 1) ic il)) [
          | inl g ↦ ground arith
          | inr (vs, g) ↦ ground (arith, length-inline_from n (i + 1) ic il g)
        ]
      ]

  match_from-inline_from :
      (values : List Text) (i i_curry i_lvs : ℕ) {full : List Text}
      → inline_from lvs curry (length values) i i_curry i_lvs ≡ some full
      → match_from lvs curry values i i_curry i_lvs ≡ some (texts_eq values full)
  unfolding inline_from match_from list_eq
  match_from-inline_from [] i i_curry i_lvs {full} h = ground arith
  match_from-inline_from (v ∷ values) i i_curry i_lvs {full} h =
      elim (Option-cases (next_label lvs curry i i_curry i_lvs)) [
        | inl e ↦ ground arith
        | inr ((l, ic, il), e) ↦
            elim (Option-cases (inline_from lvs curry (length values) (i + 1) ic il)) [
              | inl g ↦ ground arith
              | inr (vs, g) ↦ ground (arith, match_from-inline_from values (i + 1) ic il g)
            ]
      ]

  hash_from-inline_from :
      (n i i_curry i_lvs h : ℕ) {full : List Text}
      → inline_from lvs curry n i i_curry i_lvs ≡ some full
      → hash_from lvs curry n i i_curry i_lvs h ≡ some (hash_values h full)
  unfolding inline_from hash_from
  hash_from-inline_from zero i i_curry i_lvs h {full} e = ground arith
  hash_from-inline_from (suc n) i i_curry i_lvs h {full} e =
      elim (Option-cases (next_label lvs curry i i_curry i_lvs)) [
        | inl e' ↦ ground arith
        | inr ((l, ic, il), e') ↦ elim (Option-cases (inline_from lvs curry n (i + 1) ic il)) [
          | inl g ↦ ground arith
          | inr (vs, g) ↦ ground (
            arith,
            hash_from-inline_from n (i + 1) ic il (hash_add_byte (hash_add h l) separator_byte) g,
          )
        ]
      ]

  -- When the values and the curried ones can be put together, matchLabelValues tells whether some
  -- values are exactly these, and the hash is that of the whole of them.
  pub match_label_values-hash_from :
      (full : List Text)
      → inline_label_values lvs curry ≡ some full
      → ((values : List Text) → match_label_values lvs curry values ≡ some (texts_eq values full))
        × (hash_from lvs curry (length lvs + length curry) 0 0 0 hash_new
            ≡ some (hash_values hash_new full))
  unfolding inline_label_values match_label_values
  match_label_values-hash_from full h =
      (compared, hash_from-inline_from (length lvs + length curry) 0 0 0 hash_new h)
    where
      shorter :
          (values : List Text)
          → length values == length lvs + length curry ≡ false
          → texts_eq values full ≡ false
      shorter values e = elim (Bool-cases (texts_eq values full)) [
        | inl t ↦ ground (
          arith,
          ap length ((texts_eq_iff values full).0 t),
          length-inline_from (length lvs + length curry) 0 0 0 h,
        )
        | inr f ↦ f
      ]

      compared :
          (values : List Text) → match_label_values lvs curry values ≡ some (texts_eq values full)
      compared values = elim (Bool-cases (length values == length lvs + length curry)) [
        | inl e ↦ rw e (
            match_from-inline_from values 0 0 0
              (ap (λ k. inline_from lvs curry k 0 0 0) ((==_iff _ _).0 e) ∙ h))
        | inr e ↦ rw (e, shorter values e)
      ]
