-- ===== src/Forwarders/Otlp.antt =====
-- plugins/forwarder/grpc/otlpmetricsv1/forwarder.go: requests of metrics are routed by the values of
-- configured labels.
use skywalking_satellite.Base.{
  ℕ, ◌≡◌, Bool, true, false, Option, none, some, List, [], ◌∷◌, ◌++◌, map, if◌then◌else◌, Text,
  text_eq, join, split,
}

-- An attribute; a value that is no string is read as the empty text.
pub record KeyValue : Type 0 where
  pub key : Text
  pub value : Text

-- The resource of a group of metrics, none for nil: its attributes.
abbrev pub Resource : Type 0
Resource = Option (List KeyValue)

abbrev pub comma : ℕ
comma = b','

-- The keys that Prepare reads from the configuration; it is an error to have none.
unfoldable pub prepare : Text → Option (List Text)
prepare [] = none
prepare (c ∷ routing_label_keys) = some (split comma (c ∷ routing_label_keys))

pub data RoutingKey : Type 0 where
  routing_key : Text → RoutingKey
  no_resources no_attributes : RoutingKey
  no_routing_key : Text → RoutingKey

-- The inner loop over the keys, and the loop over the attributes.
unfoldable pub add_value : List Text → KeyValue → Text → Text
add_value [] kv result = result
add_value (k ∷ keys) kv result =
    add_value keys kv (if text_eq kv.key k then result ++ (comma ∷ kv.value) else result)

unfoldable pub add_values : List Text → List KeyValue → Text → Text
add_values keys [] result = result
add_values keys (kv ∷ kvs) result = add_values keys kvs (add_value keys kv result)

-- The end of generateRoutingKey, with the attributes that were seen last.
unfoldable pub without_key : Option (List KeyValue) → RoutingKey
without_key none = no_attributes
without_key (some kvs) = no_routing_key (join comma (map (λ (kv : KeyValue). kv.key) kvs))

-- `return result, nil` if the result is not empty, otherwise what follows.
abbrev or_key : Text → RoutingKey → RoutingKey
or_key [] rest = rest
or_key (c ∷ result) rest = routing_key (c ∷ result)

unfoldable pub key_among : List Text → List Resource → Option (List KeyValue) → RoutingKey
key_among keys [] last = without_key last
key_among keys (none ∷ ms) last = key_among keys ms last
key_among keys (some [] ∷ ms) last = key_among keys ms last
key_among keys (some (kv ∷ kvs) ∷ ms) last =
    or_key (add_values keys (kv ∷ kvs) []) (key_among keys ms (some (kv ∷ kvs)))

unfoldable pub generate_routing_key : List Text → List Resource → RoutingKey
generate_routing_key keys [] = no_resources
generate_routing_key keys (m ∷ ms) = key_among keys (m ∷ ms) none

-- The expiring LRU cache of the peers, of a third-party package; the time to live is inside.
pub record PeerCache (C : Type 0) : Type 0 where
  pub get : C → Text → Option Text
  pub add : C → Text → Text → C

-- `resources` are those of a request; `export` is Export of the generated client, called with the
-- key and the address of the load balancer. It answers true for no error, with the address that
-- the call has left in its context.
module _ {E C W : Type 0} (peers : PeerCache C) (resources : E → List Resource) (keys : List Text)
    (export : Text → Text → E → W → Bool × (Text × W)) where
  abbrev or_empty : Option Text → Text
  or_empty none = []
  or_empty (some t) = t

  unfoldable pub load_cached_peer : Text → C → Text
  load_cached_peer instance cache = or_empty (peers.get cache instance)

  unfoldable pub save_peer_instance : Text → Text → C → C
  save_peer_instance instance [] cache = cache
  save_peer_instance instance (b ∷ upstream) cache = peers.add cache instance (b ∷ upstream)

  -- The rounds of Forward. A request without a key is only logged.
  unfoldable pub forward : List E → C → W → Bool × (C × W)
  forward [] cache w = (true, (cache, w))
  forward (d ∷ batch) cache w = elim (generate_routing_key keys (resources d)) [
    | no_resources ↦ forward batch cache w
    | no_attributes ↦ forward batch cache w
    | no_routing_key sample ↦ forward batch cache w
    | routing_key key ↦
        let (fine, (upstream, w')) = export key (load_cached_peer key cache) d w in
        let rest = forward batch (save_peer_instance key upstream cache) w' in
        if fine then rest else (false, (cache, w'))
  ]

-- What an attribute says of the keys: its value, once for every time that its key is among them.
abbrev pub of_key : List Text → KeyValue → Text
of_key [] kv = []
of_key (k ∷ keys) kv = (if text_eq kv.key k then comma ∷ kv.value else []) ++ of_key keys kv

abbrev pub of_attributes : List Text → List KeyValue → Text
of_attributes keys [] = []
of_attributes keys (kv ∷ kvs) = of_key keys kv ++ of_attributes keys kvs

-- No attribute of these resources has one of the keys.
abbrev pub of_resource : List Text → Resource → Text
of_resource keys none = []
of_resource keys (some kvs) = of_attributes keys kvs

abbrev pub WithoutKeys : List Text → List Resource → Type 0
WithoutKeys keys [] = Unit {0}
WithoutKeys keys (m ∷ ms) = (of_resource keys m ≡ []) × WithoutKeys keys ms

-- The attributes that the error names: those of the last resource that has any.
abbrev pub last_attributes : List Resource → Option (List KeyValue) → Option (List KeyValue)
last_attributes [] last = last
last_attributes (none ∷ ms) last = last_attributes ms last
last_attributes (some [] ∷ ms) last = last_attributes ms last
last_attributes (some (kv ∷ kvs) ∷ ms) last = last_attributes ms (some (kv ∷ kvs))
