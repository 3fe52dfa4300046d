-- ===== src/Telemetry/Server.antt =====
-- internal/satellite/telemetry/metricservice: server.go with the counters, gauges and timers of
-- counter.go, gauge.go and timer.go.
use skywalking_satellite.Base.{
  Bool, true, false, Option, none, some, List, [], ◌∷◌, ◌++◌, if◌then◌else◌, Text, text_eq,
}
use skywalking_satellite.Telemetry.Vector.{BaseMetric, Cells, new_base_metric}

-- `v3.MeterData` with a single value; the two names are empty until they are set.
pub record MeterData (V : Type 0) : Type 0 where
  pub name : Text
  pub labels : List (Text × Text)
  pub value : V
  pub service : Text
  pub instance_name : Text

-- `MetricsAppender`
pub record MetricsAppender (V : Type 0) : Type 0 where
  pub prefix : Text
  pub metrics : List (MeterData V)

-- `Metric`: what is registered under a name. A counter and a dynamic gauge are a base metric with its
-- cells; a timer leads to its two counters by the names under which they are registered.
pub data Metric (V : Type 0) : Type 0 where
  counter : BaseMetric → Cells V → Metric V
  gauge : Text → List (Text × Text) → V → Metric V
  dynamic_gauge : BaseMetric → Cells V → Metric V
  timer : Text → Text → Metric V

-- The parts of `Server` that the metrics service keeps; `S` is a stream of the gRPC client.
pub record Server (V S : Type 0) : Type 0 where
  pub service : Text
  pub instance_name : Text
  pub metric_prefix : Text
  pub metrics : List (Text × Metric V)
  pub report_stream : Option S

-- rebuildGaugeName
unfoldable pub rebuild_gauge_name : Text → List Text → Text
rebuild_gauge_name name [] = name
rebuild_gauge_name name (l ∷ labels) = rebuild_gauge_name (name ++ (b'_' ∷ l)) labels

-- The constant labels of NewGauge, in pairs; none is the panic of an odd number. They stand in the order
-- of the arguments, while the code puts them into a map.
unfoldable pub const_labels : List Text → Option (List (Text × Text))
const_labels [] = some []
const_labels (k ∷ []) = none
const_labels (k ∷ v ∷ labels) = elim (const_labels labels) [
  | none ↦ none
  | some ls ↦ some ((k, v) ∷ ls)
]

abbrev pub sum_name : Text → Text
sum_name name = name ++ b'_' ∷ b's' ∷ b'u' ∷ b'm' ∷ []

abbrev pub count_name : Text → Text
count_name name = name ++ b'_' ∷ b'c' ∷ b'o' ∷ b'u' ∷ b'n' ∷ b't' ∷ []

module _ {V : Type 0} where
  -- `s.metrics[name]`
  unfoldable pub find_metric : Text → List (Text × Metric V) → Option (Metric V)
  find_metric name [] = none
  find_metric name ((n, m) ∷ ms) =
      let rest = find_metric name ms in if text_eq n name then some m else rest

  unfoldable pub is_counter : Metric V → Bool
  is_counter (counter b c) = true
  is_counter (gauge n ls v) = false
  is_counter (dynamic_gauge b c) = false
  is_counter (timer a b) = false

  unfoldable pub is_dynamic_gauge : Metric V → Bool
  is_dynamic_gauge (counter b c) = false
  is_dynamic_gauge (gauge n ls v) = false
  is_dynamic_gauge (dynamic_gauge b c) = true
  is_dynamic_gauge (timer a b) = false

  unfoldable pub is_timer : Metric V → Bool
  is_timer (counter b c) = false
  is_timer (gauge n ls v) = false
  is_timer (dynamic_gauge b c) = false
  is_timer (timer a b) = true

module _ {V S : Type 0} where
  -- Register of a name that is not there
  unfoldable pub register : Text → Metric V → Server V S → Server V S
  register name m s = record s { metrics = s.metrics ++ ((name, m) ∷ []) }

  -- NewCounter; none is the panic of the type assertion. The counter is referred to by its name.
  unfoldable pub new_counter : Cells V → Text → List Text → Server V S → Option (Server V S)
  new_counter cells name labels s = elim (find_metric name s.metrics) [
    | none ↦ some (register name (counter (new_base_metric name labels) cells) s)
    | some m ↦ if is_counter m then some s else none
  ]

  -- NewGauge; the getter is the value it gives when the metrics are sent. A metric of another kind
  -- under the name is given back as it is.
  unfoldable pub new_gauge : Text → List Text → V → Server V S → Option (Server V S)
  new_gauge name labels value s = elim (const_labels labels) [
    | none ↦ none
    | some ls ↦
        let rebuilt = rebuild_gauge_name name labels in
        elim (find_metric rebuilt s.metrics) [
          | none ↦ some (register rebuilt (gauge name ls value) s)
          | some m ↦ some s
        ]
  ]

  unfoldable pub new_dynamic_gauge : Cells V → Text → List Text → Server V S → Option (Server V S)
  new_dynamic_gauge cells name labels s =
      let rebuilt = rebuild_gauge_name name labels in
      elim (find_metric rebuilt s.metrics) [
        | none ↦ some (register rebuilt (dynamic_gauge (new_base_metric name labels) cells) s)
        | some m ↦ if is_dynamic_gauge m then some s else none
      ]

  -- NewTimer registers its two counters first.
  unfoldable pub new_timer : Cells V → Text → List Text → Server V S → Option (Server V S)
  new_timer cells name labels s = elim (find_metric name s.metrics) [
    | some m ↦ if is_timer m then some s else none
    | none ↦ elim (new_counter cells (sum_name name) labels s) [
      | none ↦ none
      | some s' ↦ elim (new_counter cells (count_name name) labels s') [
        | none ↦ none
        | some s'' ↦ some (register name (timer (sum_name name) (count_name name)) s'')
      ]
    ]
  ]
