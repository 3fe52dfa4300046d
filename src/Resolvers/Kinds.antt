-- ===== src/Resolvers/Kinds.antt =====
-- plugins/client/grpc/resolvers/kubernetes_kinds_*.go: the addresses of the targets that
-- Kubernetes reports, by the kind that is looked up.
use skywalking_satellite.Base.{
  ℕ, ◌-◌, Bool, false, ◌&&◌, Option, none, some, List, [], ◌∷◌, ◌++◌, length, drop, leb,
  if◌then◌else◌, Text, text_eq, itoa,
}

-- The labels that are read; a target is a map of labels.
pub data LabelName : Type 0 where
  address_label pod_port_label : LabelName

abbrev pub LabelSet : Type 0
LabelSet = LabelName → Option Text

-- targetgroup.Group
pub record Group : Type 0 where
  pub source : Text
  pub targets : List LabelSet

-- A label that is not in the map is the empty text.
abbrev pub label_of : Option Text → Text
label_of none = []
label_of (some v) = v

-- strings.HasSuffix
unfoldable pub has_suffix : Text → Text → Bool
has_suffix s suffix =
    leb (length suffix) (length s) && text_eq (drop (length s - length suffix) s) suffix

-- the body of the loops of the service and the endpoints analyzer
unfoldable pub exported_address : ℕ → LabelSet → List Text
exported_address port t =
    let address = label_of (t address_label) in
    if has_suffix address (58 ∷ itoa port) then address ∷ [] else []

unfoldable pub port_is : ℕ → Option Text → Bool
port_is port none = false
port_is port (some val) = text_eq val (itoa port)

-- the body of the loop of the pod analyzer
unfoldable pub pod_address : ℕ → LabelSet → List Text
pod_address port t = if port_is port (t pod_port_label) then label_of (t address_label) ∷ [] else []

-- The two loops of GetAddresses, over the groups in the order of the range.
unfoldable pub of_targets : (LabelSet → List Text) → List LabelSet → List Text
of_targets f [] = []
of_targets f (t ∷ ts) = f t ++ of_targets f ts

unfoldable pub get_addresses : (LabelSet → List Text) → List Group → List Text
get_addresses f [] = []
get_addresses f (g ∷ gs) = of_targets f g.targets ++ get_addresses f gs

-- KindAddressAnalyzer, with the port of the configuration as an argument.
pub record KindAddressAnalyzer : Type 0 where
  pub kind_type : Text
  pub analyze : ℕ → List Group → List Text

-- The names of the roles are constants of the discovery package.
abbrev pub analyzers : Text → Text → Text → List KindAddressAnalyzer
analyzers role_pod role_service role_endpoint =
    (record { kind_type = role_pod; analyze = λ port. get_addresses (pod_address port) })
    ∷ (record { kind_type = role_service; analyze = λ port. get_addresses (exported_address port) })
    ∷ (record {
      kind_type = role_endpoint;
      analyze = λ port. get_addresses (exported_address port);
    })
    ∷ []

-- The loop of NewKindCache: the last analyzer of the kind; none is the error that follows.
unfoldable pub choose_analyzer :
    Text → List KindAddressAnalyzer → Option KindAddressAnalyzer → Option KindAddressAnalyzer
choose_analyzer kind [] analyzer = analyzer
choose_analyzer kind (a ∷ as') analyzer =
    choose_analyzer kind as' (if text_eq a.kind_type kind then some a else analyzer)
