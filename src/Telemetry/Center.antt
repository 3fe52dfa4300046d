-- ===== src/Telemetry/Center.antt =====
-- internal/satellite/telemetry/telemetry.go: the exporters by name, the choice of them by the
-- configuration, and the server that passes every call on to several exporters.
use skywalking_satellite.Base.{
  ◌≡◌, Bool, true, false, ◌&&◌, Option, none, some, List, [], ◌∷◌, ◌++◌, if◌then◌else◌, Text,
  text_eq, split,
}

-- `Server` on a world; the flag of a call says that there is no error. `C` stands for the counters,
-- gauges and timers, of which the center only makes several ones.
pub record Exporter (W C : Type 0) : Type 0 where
  pub start : W → Bool × W
  pub after_sharing_start : W → Bool × W
  pub close : W → Bool × W
  pub new_metric : Text → List Text → W → C × W

-- What stands behind `currentServer`: nothing, one exporter, or a MultipleServer.
pub data Current (W C : Type 0) : Type 0 where
  unset : Current W C
  single : Exporter W C → Current W C
  multiple : List (Exporter W C) → Current W C

pub record Center (W C : Type 0) : Type 0 where
  pub servers : List (Text × Exporter W C)
  pub current_server : Current W C
  pub default_server : Option (Exporter W C)

module _ {W C : Type 0} where
  -- `servers[name] = server`
  unfoldable pub set_server :
      Text → Exporter W C → List (Text × Exporter W C) → List (Text × Exporter W C)
  set_server name server [] = (name, server) ∷ []
  set_server name server ((n, s) ∷ servers) =
      let rest = set_server name server servers in
      if text_eq n name then (name, server) ∷ servers else (n, s) ∷ rest

  unfoldable pub find_server : Text → List (Text × Exporter W C) → Option (Exporter W C)
  find_server name [] = none
  find_server name ((n, s) ∷ servers) =
      let rest = find_server name servers in if text_eq n name then some s else rest

  unfoldable pub register : Text → Exporter W C → Bool → Center W C → Center W C
  register name server is_default c = record c {
    servers = set_server name server c.servers;
    default_server = if is_default then some server else c.default_server;
  }

  -- the loop of Init over the export types: the servers that were started, or none at an error
  unfoldable pub start_servers :
      List (Text × Exporter W C)
      → List Text
      → List (Exporter W C)
      → W
      → Option (List (Exporter W C)) × W
  start_servers servers [] started w = (some started, w)
  start_servers servers (t ∷ types) started w = elim (find_server t servers) [
    | none ↦ (none, w)
    | some server ↦
        let (fine, w') = server.start w in
        let rest = start_servers servers types (started ++ (server ∷ [])) w' in
        if fine then rest else (none, w')
  ]

  -- `if len(exportServers) > 1 … else if len(exportServers) == 1`
  unfoldable pub choose : List (Exporter W C) → Current W C → Current W C
  choose [] current = current
  choose (server ∷ []) current = single server
  choose (server ∷ other ∷ servers) current = multiple (server ∷ other ∷ servers)

  -- Init; the flag says that there is no error.
  unfoldable pub init : Text → Center W C → W → Bool × Center W C × W
  init export_type c w =
      let (started, w') = start_servers c.servers (split b',' export_type) [] w in
      elim started [
        | none ↦ (false, c, w')
        | some servers ↦ (true, record c { current_server = choose servers c.current_server }, w')
      ]

  -- getServer; none is the nil that is there without a default server.
  unfoldable pub get_server : Center W C → Current W C × Center W C
  get_server c = elim c.current_server [
    | unset ↦ elim c.default_server [
      | none ↦ (unset, c)
      | some server ↦ (single server, record c { current_server = single server })
    ]
    | single server ↦ (single server, c)
    | multiple servers ↦ (multiple servers, c)
  ]

  -- A call that MultipleServer makes on every server, with the errors appended to one.
  unfoldable pub call_each : (Exporter W C → W → Bool × W) → List (Exporter W C) → W → Bool × W
  call_each call [] w = (true, w)
  call_each call (server ∷ servers) w =
      let (fine, w') = call server w in
      let (rest, w'') = call_each call servers w' in (fine && rest, w'')

  -- AfterSharingStart and Close of the center; none is the call on nil.
  unfoldable pub call_current : (Exporter W C → W → Bool × W) → Current W C → W → Option (Bool × W)
  call_current call unset w = none
  call_current call (single server) w = some (call server w)
  call_current call (multiple servers) w = some (call_each call servers w)

  -- NewCounter and its kin of MultipleServer
  unfoldable pub new_each : Text → List Text → List (Exporter W C) → W → List C × W
  new_each name labels [] w = ([], w)
  new_each name labels (server ∷ servers) w =
      let (m, w') = server.new_metric name labels w in
      let (ms, w'') = new_each name labels servers w' in (m ∷ ms, w'')

  -- Inc, Add, Dec, AddTime and Stop of the multiple metrics
  unfoldable pub update_each : (C → W → W) → List C → W → W
  update_each call [] w = w
  update_each call (m ∷ ms) w = update_each call ms (call m w)

  -- the exporters of some types, when all are known
  abbrev pub found : List (Text × Exporter W C) → List Text → Option (List (Exporter W C))
  found servers [] = some []
  found servers (t ∷ types) = elim (find_server t servers) [
    | none ↦ none
    | some s ↦ elim (found servers types) [ none ↦ none | some ss ↦ some (s ∷ ss) ]
  ]

  -- the worlds at which the exporters are started one after another, all without an error
  abbrev pub StartAll : List (Exporter W C) → W → W → Type 0
  StartAll [] w end = w ≡ end
  StartAll (s ∷ ss) w end = ((s.start w).0 ≡ true) × StartAll ss (s.start w).1 end
