-- ===== src/Telemetry/Tests.antt =====
-- A counter with one label, and label values with a curried one.
use skywalking_satellite.Base.{
  ℕ, ◌+◌, ◌≡◌, refl, Bool, true, none, some, List, [], ◌∷◌, length, Text, texts_eq, join, ltb,
  false, inr, ◌++◌, list_eq,
}
use skywalking_satellite.Telemetry.Labels.{
  CurriedLabelValue, inline_label_values, match_label_values, hash_from, hash_values, hash_new,
  next_label,
}
use skywalking_satellite.Telemetry.Inline.{match_label_values-hash_from}
use skywalking_satellite.Telemetry.Vector.{
  BaseMetric, Cells, ok, new_base_metric, fnv64a, validate_values,
}
use skywalking_satellite.Telemetry.Totals.{
  add_all, value_at, total_from, add_all-total_from, fnv64a-Hashes,
}
use skywalking_satellite.Telemetry.Server.{
  MeterData, Server, find_metric, Metric, counter, MetricsAppender, timer,
}
use skywalking_satellite.Telemetry.Center.{Exporter, find_server, Center, unset, init}
use skywalking_satellite.Telemetry.Sending.{
  write_all, write_metric, write_counter, write_hashes, write_entries, append_single_value,
  label_pairs,
}
use skywalking_satellite.Telemetry.Timers.{write_all-timer}
use skywalking_satellite.Telemetry.Appended.{data_of}
use skywalking_satellite.Telemetry.Init.{init-Stops}

abbrev any_text : Text → Bool
any_text t = true

abbrev additions : List (List Text × ℕ)
additions = ((97 ∷ []) ∷ [], 1) ∷ ((98 ∷ []) ∷ [], 2) ∷ ((97 ∷ []) ∷ [], 3) ∷ []

abbrev one_label : List Text
one_label = (108 ∷ []) ∷ []

add_all-total_from_example :
    (r : BaseMetric × Cells ℕ) × (add_all 0 ◌+◌ any_text fnv64a additions
        (new_base_metric [] one_label)
        (record { next = 0; value = λ p. 0 })
      ≡ ok r)
    × ((ls : List Text)
        → value_at 0 ◌+◌ any_text fnv64a (hash_values hash_new) one_label r.0 r.1 ls
          ≡ total_from 0 ◌+◌ any_text additions ls none)
unfolding validate_values
add_all-total_from_example =
    add_all-total_from 0 ◌+◌ any_text fnv64a (hash_values hash_new) one_label [] additions (λ p. 0)
      (fnv64a-Hashes 0 ◌+◌ any_text one_label) ((refl, refl), ((refl, refl), ((refl, refl), tt)))

abbrev curried : List CurriedLabelValue
curried = record { index = 1; value = 120 ∷ [] } ∷ []

abbrev given : List Text
given = (97 ∷ []) ∷ (98 ∷ []) ∷ []

abbrev whole : List Text
whole = (97 ∷ []) ∷ (120 ∷ []) ∷ (98 ∷ []) ∷ []

match_label_values-hash_from_example :
    ((values : List Text) → match_label_values given curried values ≡ some (texts_eq values whole))
    × (hash_from given curried (length given + length curried) 0 0 0 hash_new
        ≡ some (hash_values hash_new whole))
unfolding inline_label_values next_label
match_label_values-hash_from_example = match_label_values-hash_from given curried whole refl

abbrev no_cells : Cells ℕ
no_cells = record { next = 0; value = λ p. 0 }

abbrev new_server : Server ℕ ℕ
new_server = record {
  service = 1 ∷ [];
  instance_name = 2 ∷ [];
  metric_prefix = [];
  metrics = [];
  report_stream = none;
}

-- a counter with one cell that holds 5
abbrev five : Text → BaseMetric
five name = record {
  name = name;
  label_keys = [];
  curry = [];
  metrics = λ h. record { values = []; metric = 0 } ∷ [];
}

abbrev five_cells : Cells ℕ
five_cells = record { next = 1; value = λ p. 5 }

abbrev five_data : Text → MeterData ℕ
five_data name = record { name = name; labels = []; value = 5; service = []; instance_name = [] }

abbrev timed : List (Text × Metric ℕ)
timed =
    (1 ∷ [], counter (five (1 ∷ [])) five_cells)
    ∷ (2 ∷ [], counter (five (2 ∷ [])) five_cells)
    ∷ (3 ∷ [], timer (1 ∷ []) (2 ∷ []))
    ∷ []

abbrev appender : List (MeterData ℕ) → MetricsAppender ℕ
appender ds = record { prefix = []; metrics = ds }

write_all-timer_example :
    (d e : MetricsAppender ℕ) × (data_of (five (1 ∷ [])) five_cells (0 ∷ []) [] ≡ some d)
    × (data_of (five (2 ∷ [])) five_cells (0 ∷ []) [] ≡ some e)
    × (five_data (1 ∷ []) ∷ five_data (2 ∷ []) ∷ five_data (1 ∷ []) ∷ five_data (2 ∷ []) ∷ []
        ≡ [] ++ ((d.metrics ++ e.metrics) ++ (d.metrics ++ e.metrics)))
unfolding write_all write_metric write_counter write_hashes write_entries append_single_value
    label_pairs find_metric list_eq
write_all-timer_example =
    write_all-timer (λ b. 0 ∷ []) timed (3 ∷ []) (1 ∷ []) (2 ∷ []) (five (1 ∷ [])) (five (2 ∷ []))
      five_cells five_cells (appender [])
      (appender
        (five_data (1 ∷ []) ∷ five_data (2 ∷ []) ∷ five_data (1 ∷ []) ∷ five_data (2 ∷ []) ∷ []))
      refl refl refl

-- an exporter that adds its number to the world when it starts, and fails if that is none
abbrev exporter : ℕ → Exporter ℕ ℕ
exporter n = record {
  start = λ w. (ltb 0 n, w + n);
  after_sharing_start = λ w. (true, w);
  close = λ w. (true, w);
  new_metric = λ name labels w. (0, w);
}

abbrev center : Center ℕ ℕ
center = record {
  servers = (1 ∷ [], exporter 5) ∷ (2 ∷ [], exporter 7) ∷ (3 ∷ [], exporter 0) ∷ [];
  current_server = unset;
  default_server = none;
}

init-Stops_example : init (1 ∷ 44 ∷ 3 ∷ 44 ∷ 2 ∷ []) center 0 ≡ (false, center, 5)
unfolding join find_server list_eq
init-Stops_example =
    init-Stops center (exporter 5 ∷ []) 0 5 ((1 ∷ []) ∷ []) (3 ∷ []) ((2 ∷ []) ∷ []) 5
      ((refl, tt), ((refl, tt), ((refl, tt), tt))) refl (refl, refl) (inr (exporter 0, refl, refl))
