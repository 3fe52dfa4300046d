-- ===== src/Forwarders/Tests.antt =====
-- Batches over streams of which some calls fail.
use skywalking_satellite.Base.{
  ℕ, ◌+◌, ◌≡◌, refl, Option, none, some, List, [], ◌∷◌, ◌==◌, not, if◌then◌else◌, Text, true,
}
use skywalking_satellite.Forwarders.Net.{Net, open_stream, pending, refusals}
use skywalking_satellite.Forwarders.Log
use skywalking_satellite.Forwarders.Event
use skywalking_satellite.Forwarders.Meter
use skywalking_satellite.Forwarders.Management
use skywalking_satellite.Forwarders.Management.Once
use skywalking_satellite.Forwarders.Otlp

-- The third call fails.
abbrev third_fails : Net ℕ
third_fails = record { fate = λ n. not (n == 2); log = [] }

abbrev batch : List (Option (List ℕ))
batch = some (1 ∷ 2 ∷ []) ∷ none ∷ some (3 ∷ []) ∷ []

forward-refusals_example : refusals (Log.forward (λ e. e) batch third_fails).1.log ≡ (
    if (Log.forward (λ e. e) batch third_fails).0
    then refusals third_fails.log
    else refusals third_fails.log + 1)
forward-refusals_example = Log.forward-refusals (λ e. e) batch third_fails

forward-ClosedLast_example :
    Event.ClosedLast
      (λ e. e)
      third_fails
      0
      (Event.forward (λ e. e) (some 1 ∷ some 2 ∷ []) third_fails)
    × (pending (Event.forward (λ e. e) (some 1 ∷ some 2 ∷ []) third_fails).1 ≡ pending third_fails)
unfolding open_stream
forward-ClosedLast_example =
    Event.forward-ClosedLast (λ e. e) (some 1 ∷ some 2 ∷ []) third_fails 0 refl

abbrev no_upstreams : Meter.Upstreams (List Text)
no_upstreams = record { add = λ c n a. a ∷ c; peer = λ s. [] }

abbrev first : Meter.Instance
first = record { service = 1 ∷ []; service_instance = 2 ∷ [] }

forward-pending_example :
    pending
      (Meter.forward no_upstreams (λ e. some (e, some first)) (4 ∷ 5 ∷ 6 ∷ []) [] third_fails).2
    ≡ pending third_fails
forward-pending_example =
    Meter.forward-pending no_upstreams (λ e. some (e, some first)) (4 ∷ 5 ∷ 6 ∷ []) [] third_fails

-- A report, and two pings of one instance.
abbrev report_and_pings : List (Management.Management ℕ)
report_and_pings =
    Management.instance_ping (record { service = 1 ∷ []; service_instance = 2 ∷ [] })
    ∷ Management.instance_properties 7
    ∷ Management.instance_ping (record { service = 1 ∷ []; service_instance = 2 ∷ [] })
    ∷ []

abbrev all_well : Management.ManagementClient ℕ
all_well = record { fate = λ n. true; log = [] }

-- The label 1 is configured, and the second resource has it.
abbrev labelled : Otlp.Resource
labelled = some ((record { key = 1 ∷ []; value = 9 ∷ [] }) ∷ [])

abbrev unlabelled : Otlp.Resource
unlabelled = some ((record { key = 2 ∷ []; value = 8 ∷ [] }) ∷ [])
