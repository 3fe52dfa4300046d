-- ===== src/Telemetry/Appended.antt =====
-- Writing a metric appends its data to what the appender had.
use skywalking_satellite.Base.{
  ℕ, ◌≡◌, refl, sym, ap, ◌∙◌, true, Option, none, some, List, [], ◌∷◌, ◌++◌, append_assoc,
  append-nil, text_eq_iff, Option-cases, inl, inr, Text, text_eq, list_eq, arith,
}
use skywalking_satellite.Telemetry.Vector.{MetricWithLabelValues, BaseMetric, Cells}
use skywalking_satellite.Telemetry.Server.{MeterData, MetricsAppender, Metric, find_metric}
use skywalking_satellite.Telemetry.Sending.{
  append_single_value, label_pairs, write_entries, write_hashes,
}

pub text_eq-append : (n a b : Text) → text_eq (n ++ a) (n ++ b) ≡ text_eq a b
unfolding list_eq
text_eq-append [] a b = refl
text_eq-append (x ∷ n) a b = ground (arith, text_eq-append n a b)

pub text_eq_self : (a : Text) → text_eq a a ≡ true
text_eq_self a = (text_eq_iff a a).1 refl

-- A chain of optional results that gives a result has one at its first step.
pub bind-some :
    {A B : Type 0} (o : Option A) (f : A → Option B) {r : B}
    → elim o [ none ↦ none | some a ↦ f a ] ≡ some r
    → (a : A) × (o ≡ some a) × (f a ≡ some r)
bind-some none f h = cc
bind-some (some a) f h = (a, refl, h)

pub some_injective : {A : Type 0} {a b : A} → some a ≡ some b → a ≡ b
some_injective h = cc

pub four_parts :
    {A : Type 0} (l x y : List A) {k m n o : List A}
    → k ≡ l ++ x
    → m ≡ k ++ y
    → n ≡ m ++ x
    → o ≡ n ++ y
    → o ≡ l ++ ((x ++ y) ++ (x ++ y))
four_parts l x y p q r s =
    s ∙ ap (λ t. t ++ y) (r ∙ ap (λ t. t ++ x) (q ∙ ap (λ t. t ++ y) p)) ∙ simp append_assoc

module _ {V : Type 0} where
  pub find_metric-append :
      (name : Text) (ms ns : List (Text × Metric V))
      → find_metric name (ms ++ ns)
        ≡ elim (find_metric name ms) [ some m ↦ some m | none ↦ find_metric name ns ]
  unfolding find_metric
  find_metric-append name [] ns = refl
  find_metric-append name ((n, m) ∷ ms) ns = ground (arith, find_metric-append name ms ns)

  -- one appender more, with the data behind what it had
  abbrev pub behind : List (MeterData V) → Option (MetricsAppender V) → Option (MetricsAppender V)
  behind before none = none
  behind before (some a) = some (record a { metrics = before ++ a.metrics })

  write_entries-behind :
      (b : BaseMetric) (cells : Cells V) (ms : List MetricWithLabelValues)
      (before : List (MeterData V)) (a : MetricsAppender V)
      → write_entries b cells ms (record a { metrics = before ++ a.metrics })
        ≡ behind before (write_entries b cells ms a)
  unfolding write_entries append_single_value
  write_entries-behind b cells [] before a = refl
  write_entries-behind b cells (m ∷ ms) before a =
      elim (Option-cases (label_pairs b.label_keys m.values)) [
        | inl e ↦ rw (write_entries, e)
        | inr (ls, e) ↦
            rw (write_entries, e)
              (ap (λ l. write_entries b cells ms (record a { metrics = l }))
                  (append_assoc before a.metrics _)
                ∙ write_entries-behind b cells ms before
                    (append_single_value b.name ls (cells.value m.metric) a))
      ]

  write_hashes-behind :
      (b : BaseMetric) (cells : Cells V) (hashes : List ℕ) (before : List (MeterData V))
      (a : MetricsAppender V)
      → write_hashes b cells hashes (record a { metrics = before ++ a.metrics })
        ≡ behind before (write_hashes b cells hashes a)
  unfolding write_hashes
  write_hashes-behind b cells [] before a = refl
  write_hashes-behind b cells (h ∷ hashes) before a =
      elim (Option-cases (write_entries b cells (b.metrics h) a)) [
        | inl e ↦ rw (write_hashes, write_entries-behind b cells (b.metrics h) before a, e)
        | inr (a', e) ↦
            rw (write_hashes, write_entries-behind b cells (b.metrics h) before a, e)
              (write_hashes-behind b cells hashes before a')
      ]

  write_entries-prefix :
      (b : BaseMetric) (cells : Cells V) (ms : List MetricWithLabelValues)
      (a a' : MetricsAppender V)
      → write_entries b cells ms a ≡ some a'
      → a'.prefix ≡ a.prefix
  unfolding write_entries append_single_value
  write_entries-prefix b cells [] a a' h = ground arith
  write_entries-prefix b cells (m ∷ ms) a a' h =
      elim (Option-cases (label_pairs b.label_keys m.values)) [
        | inl e ↦ ground arith
        | inr (ls, e) ↦ ground (
          arith,
          write_entries-prefix b cells ms (append_single_value b.name ls (cells.value m.metric) a)
              a',
        )
      ]

  write_hashes-prefix :
      (b : BaseMetric) (cells : Cells V) (hashes : List ℕ) (a a' : MetricsAppender V)
      → write_hashes b cells hashes a ≡ some a'
      → a'.prefix ≡ a.prefix
  unfolding write_hashes
  write_hashes-prefix b cells [] a a' h = ground arith
  write_hashes-prefix b cells (k ∷ hashes) a a' h =
      elim (Option-cases (write_entries b cells (b.metrics k) a)) [
        | inl e ↦ ground arith
        | inr (c, e) ↦ ground (
          arith,
          write_hashes-prefix b cells hashes c a',
          write_entries-prefix b cells (b.metrics k) a c,
        )
      ]

  -- What a base metric has to write.
  pub data_of : BaseMetric → Cells V → List ℕ → Text → Option (MetricsAppender V)
  data_of b cells hashes prefix =
      write_hashes b cells hashes (record { prefix = prefix; metrics = [] })

  pub write_hashes-appends :
      (b : BaseMetric) (cells : Cells V) (hashes : List ℕ) (a a' : MetricsAppender V)
      → write_hashes b cells hashes a ≡ some a'
      → (d : MetricsAppender V) × (data_of b cells hashes a.prefix ≡ some d)
        × (a'.metrics ≡ a.metrics ++ d.metrics)
        × (a'.prefix ≡ a.prefix)
  unfolding data_of
  write_hashes-appends b cells hashes a a' h =
      let fresh : MetricsAppender V = record { prefix = a.prefix; metrics = [] } in
      let split =
        ap (λ l. write_hashes b cells hashes (record a { metrics = l }))
          (sym (append-nil a.metrics))
        ∙ write_hashes-behind b cells hashes a.metrics fresh in
      elim (Option-cases (write_hashes b cells hashes fresh)) [
        | inl e ↦ ground (arith, split)
        | inr (d, e) ↦ (
          d,
          e,
          ground (arith, split),
          ground (arith, split, write_hashes-prefix b cells hashes fresh d),
        )
      ]
