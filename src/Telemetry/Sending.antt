-- ===== src/Telemetry/Sending.antt =====
-- internal/satellite/telemetry/metricservice: the metrics written to an appender, and sendMetrics and
-- openBatchStream of server.go over the calls of the gRPC client.
use skywalking_satellite.Base.{
  ℕ, Bool, true, false, Option, none, some, List, [], ◌∷◌, ◌++◌, if◌then◌else◌, Text,
}
use skywalking_satellite.Telemetry.Vector.{MetricWithLabelValues, BaseMetric, Cells}
use skywalking_satellite.Telemetry.Server.{
  MeterData, MetricsAppender, Metric, counter, gauge, dynamic_gauge, timer, Server, find_metric,
}

-- the labels of one sub metric; none is the panic for values that are fewer than the keys
unfoldable pub label_pairs : List Text → List Text → Option (List (Text × Text))
label_pairs [] values = some []
label_pairs (k ∷ keys) [] = none
label_pairs (k ∷ keys) (v ∷ values) = elim (label_pairs keys values) [
  | none ↦ none
  | some ls ↦ some ((k, v) ∷ ls)
]

module _ {V : Type 0} where
  unfoldable pub append_single_value :
      Text → List (Text × Text) → V → MetricsAppender V → MetricsAppender V
  append_single_value name labels value a = record a {
    metrics =
        a.metrics
        ++ (record {
          name = a.prefix ++ name;
          labels = labels;
          value = value;
          service = [];
          instance_name = [];
        }
            ∷ []);
  }

  -- the inner loop of WriteMetric over the metrics of a hash
  unfoldable pub write_entries :
      BaseMetric
      → Cells V
      → List MetricWithLabelValues
      → MetricsAppender V
      → Option (MetricsAppender V)
  write_entries b cells [] a = some a
  write_entries b cells (m ∷ ms) a = elim (label_pairs b.label_keys m.values) [
    | none ↦ none
    | some labels ↦
        write_entries b cells ms (append_single_value b.name labels (cells.value m.metric) a)
  ]

  -- WriteMetric of a base metric; `hashes` is the order in which the map is walked, which Go leaves open.
  unfoldable pub write_hashes :
      BaseMetric → Cells V → List ℕ → MetricsAppender V → Option (MetricsAppender V)
  write_hashes b cells [] a = some a
  write_hashes b cells (h ∷ hashes) a = elim (write_entries b cells (b.metrics h) a) [
    | none ↦ none
    | some a' ↦ write_hashes b cells hashes a'
  ]

  module _ (walk : BaseMetric → List ℕ) where
    -- WriteMetric of a counter that a timer leads to; its pointer always leads to a counter.
    unfoldable pub write_counter :
        Option (Metric V) → MetricsAppender V → Option (MetricsAppender V)
    write_counter none a = none
    write_counter (some (counter b cells)) a = write_hashes b cells (walk b) a
    write_counter (some (gauge n ls v)) a = none
    write_counter (some (dynamic_gauge b cells)) a = none
    write_counter (some (timer x y)) a = none

    unfoldable pub write_metric :
        List (Text × Metric V) → Metric V → MetricsAppender V → Option (MetricsAppender V)
    write_metric all (counter b cells) a = write_hashes b cells (walk b) a
    write_metric all (gauge name labels value) a = some (append_single_value name labels value a)
    write_metric all (dynamic_gauge b cells) a = write_hashes b cells (walk b) a
    write_metric all (timer sum count) a = elim (write_counter (find_metric sum all) a) [
      | none ↦ none
      | some a' ↦ write_counter (find_metric count all) a'
    ]

    -- the loop of sendMetrics over the metrics
    unfoldable pub write_all :
        List (Text × Metric V)
        → List (Text × Metric V)
        → MetricsAppender V
        → Option (MetricsAppender V)
    write_all all [] a = some a
    write_all all ((n, m) ∷ ms) a = elim (write_metric all m a) [
      | none ↦ none
      | some a' ↦ write_all all ms a'
    ]

-- The calls of the gRPC client on a world: CollectBatch, Send (whether it went well) and CloseAndRecv.
pub record StreamClient (V S W : Type 0) : Type 0 where
  pub collect_batch : W → Option S × W
  pub send : S → List (MeterData V) → W → Bool × W
  pub close_and_recv : S → W → W

-- `appender.metrics[0].Service = s.service` and the instance
unfoldable pub set_first : {V S : Type 0} → Server V S → List (MeterData V) → List (MeterData V)
set_first s [] = []
set_first s (d ∷ ds) = record d { service = s.service; instance_name = s.instance_name } ∷ ds

module _ {V S W : Type 0} (client : StreamClient V S W) where
  -- CloseAndRecv of the stream that is open; its error is logged.
  unfoldable pub close_stream : Option S → W → W
  close_stream none w = w
  close_stream (some stream) w = client.close_and_recv stream w

  -- the flag says whether there is no error
  unfoldable pub open_batch_stream : Server V S → W → Bool × Server V S × W
  open_batch_stream s w =
      let w' = close_stream s.report_stream w in
      let (opened, w'') = client.collect_batch w' in
      elim opened [
        | some stream ↦ (true, record s { report_stream = some stream }, w'')
        | none ↦ (false, s, w'')
      ]

  -- the end of sendMetrics, with a stream
  unfoldable pub send_data : S → List (MeterData V) → Server V S → W → Bool × Server V S × W
  send_data stream [] s w = (true, s, w)
  send_data stream (d ∷ ds) s w =
      let (sent, w') = client.send stream (set_first s (d ∷ ds)) w in
      if sent then (true, s, w') else (let (_, s', w'') = open_batch_stream s w' in (true, s', w''))

  unfoldable pub send_on :
      (BaseMetric → List ℕ) → Option S → Server V S → W → Option (Bool × Server V S × W)
  send_on walk none s w = none
  send_on walk (some stream) s w =
      elim (write_all walk s.metrics s.metrics
        (record { prefix = s.metric_prefix; metrics = [] })) [
          | none ↦ none
          | some a ↦ some (send_data stream a.metrics s w)
        ]

  -- sendMetrics; none is a panic.
  unfoldable pub send_metrics :
      (BaseMetric → List ℕ) → Server V S → W → Option (Bool × Server V S × W)
  send_metrics walk s w = elim s.report_stream [
    | some stream ↦ send_on walk (some stream) s w
    | none ↦
        let (opened, s', w') = open_batch_stream s w in
        if opened then send_on walk s'.report_stream s' w' else some (false, s', w')
  ]
