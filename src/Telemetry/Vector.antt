-- ===== src/Telemetry/Vector.antt =====
-- internal/satellite/telemetry/metricservice/base.go and counter.go: a metric with a cell for every
-- combination of label values.
use skywalking_satellite.Base.{
  ℕ, ◌+◌, ◌-◌, Bool, true, false, Option, none, some, List, [], ◌∷◌, ◌++◌, length, ◌==◌,
  if◌then◌else◌, update, Text,
}
use skywalking_satellite.Telemetry.Labels.{
  CurriedLabelValue, inline_label_values, match_label_values, hash_from, hash_new,
}

-- `metricWithLabelValues`: the sub metric is a pointer, the number of a cell.
pub record MetricWithLabelValues : Type 0 where
  pub values : List Text
  pub metric : ℕ

-- `BaseMetric`: the map by hashes is a function, and a hash that is not there has no metrics.
pub record BaseMetric : Type 0 where
  pub name : Text
  pub label_keys : List Text
  pub curry : List CurriedLabelValue
  pub metrics : ℕ → List MetricWithLabelValues

unfoldable pub new_base_metric : Text → List Text → BaseMetric
new_base_metric name labels = record {
  name = name;
  label_keys = labels;
  curry = [];
  metrics = λ h. [];
}

-- What ends in a panic of Inc and Add: the errors of the label values, or an index out of range.
pub data Fault : Type 0 where
  inconsistent_cardinality : Fault
  not_valid_utf8 : Text → Fault
  index_out_of_range : Fault

pub data Checked {ℓ} (A : Type ℓ) : Type ℓ where
  ok : A → Checked A
  fault : Fault → Checked A

infixl 5 ◌>>=◌
abbrev pub ◌>>=◌ {ℓ κ} : {A : Type ℓ} {B : Type κ} → Checked A → (A → Checked B) → Checked B
ok a >>= f = f a
fault e >>= f = fault e

-- An index out of range is a panic.
abbrev pub in_range {ℓ} : {A : Type ℓ} → Option A → Checked A
in_range none = fault index_out_of_range
in_range (some a) = ok a

-- `utf8.ValidString` of the standard library is an argument.
unfoldable pub validate_values : (Text → Bool) → List Text → Checked (Unit {0})
validate_values valid_string [] = ok tt
validate_values valid_string (v ∷ vals) =
    let rest = validate_values valid_string vals in
    if valid_string v then rest else fault (not_valid_utf8 v)

unfoldable pub validate_label_values : (Text → Bool) → List Text → ℕ → Checked (Unit {0})
validate_label_values valid_string vals expected =
    if length vals == expected
    then validate_values valid_string vals
    else fault inconsistent_cardinality

-- A hash of label values for a number of labels; the code's is fnv64a.
abbrev pub Hash : Type 0
Hash = ℕ → List Text → List CurriedLabelValue → Option ℕ

unfoldable pub fnv64a : Hash
fnv64a labels lvs curry = hash_from lvs curry labels 0 0 0 hash_new

unfoldable pub hash_label_values : (Text → Bool) → Hash → BaseMetric → List Text → Checked ℕ
hash_label_values valid_string hash b vals = do
  _ ← validate_label_values valid_string vals (length b.label_keys - length b.curry)
  in_range (hash (length b.label_keys) vals b.curry)

-- findMetricWithLabelValues, with the metric that it leads to; none when there is no index.
unfoldable pub find_metric_with_label_values :
    List Text → List CurriedLabelValue → List MetricWithLabelValues → Checked (Option ℕ)
find_metric_with_label_values lvs curry [] = ok none
find_metric_with_label_values lvs curry (m ∷ metrics) = do
  same ← in_range (match_label_values lvs curry m.values)
  elim same [ true ↦ ok (some m.metric) | false ↦ find_metric_with_label_values lvs curry metrics ]

-- The cells that NewSubMetric allocated: their number, and what each holds.
pub record Cells (V : Type 0) : Type 0 where
  pub next : ℕ
  pub value : ℕ → V

module _ {V : Type 0} (initial : V) where
  -- `b.NewSubMetric(inlinedLVs...)` and the append to the metrics of the hash
  unfoldable pub create_metric : ℕ → List Text → BaseMetric → Cells V → ℕ × BaseMetric × Cells V
  create_metric h inlined b cells = (
    cells.next,
    record b {
      metrics =
          update b.metrics h
            (b.metrics h ++ (record { values = inlined; metric = cells.next } ∷ []));
    },
    record { next = cells.next + 1; value = update cells.value cells.next initial },
  )

  -- The second look under the write lock finds what the first did, with no other routine between.
  unfoldable pub get_or_create :
      ℕ → List Text → BaseMetric → Cells V → Checked (ℕ × BaseMetric × Cells V)
  get_or_create h lvs b cells = do
    found ← find_metric_with_label_values lvs b.curry (b.metrics h)
    elim found [
      | some p ↦ ok (p, b, cells)
      | none ↦ do
        inlined ← in_range (inline_label_values lvs b.curry)
        ok (create_metric h inlined b cells)
    ]

  unfoldable pub get_metric_with_label_values :
      (Text → Bool) → Hash → List Text → BaseMetric → Cells V → Checked (ℕ × BaseMetric × Cells V)
  get_metric_with_label_values valid_string hash lvs b cells = do
    h ← hash_label_values valid_string hash b lvs
    get_or_create h lvs b cells

  -- Counter.Add over the addition of the numbers; Inc adds one. addFloat64 repeats its exchange until
  -- no other routine came between, and then has added.
  unfoldable pub add :
      (V → V → V)
      → (Text → Bool)
      → Hash
      → V
      → List Text
      → BaseMetric
      → Cells V
      → Checked (BaseMetric × Cells V)
  add plus valid_string hash delta lvs b cells = do
    (p, b', cells') ← get_metric_with_label_values valid_string hash lvs b cells
    ok (b', record cells' { value = update cells'.value p (plus (cells'.value p) delta) })
