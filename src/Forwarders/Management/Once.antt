-- ===== src/Forwarders/Management/Once.antt =====
-- Which calls a batch of the management forwarder adds.
use skywalking_satellite.Base.{◌≡◌, true, ◌||◌, List, [], ◌∷◌, ◌++◌, Text}
use skywalking_satellite.Forwarders.Management.{
  instance_properties, instance_ping, other_data, reported, kept_alive, call_failed, Management,
  exists_in, Call, ManagementClient, Fresh, instance_ping_str,
}

module _ {P : Type 0} where
  -- What was asked for and what was done.
  abbrev pub properties_in : List (Management P) → List P
  properties_in [] = []
  properties_in (instance_properties p ∷ batch) = p ∷ properties_in batch
  properties_in (instance_ping i ∷ batch) = properties_in batch
  properties_in (other_data ∷ batch) = properties_in batch

  abbrev pub reports : List (Call P) → List P
  reports [] = []
  reports (reported p ∷ cs) = p ∷ reports cs
  reports (kept_alive i ∷ cs) = reports cs
  reports (call_failed ∷ cs) = reports cs

  abbrev pub alive : List (Call P) → List Text
  alive [] = []
  alive (reported p ∷ cs) = alive cs
  alive (kept_alive i ∷ cs) = instance_ping_str i ∷ alive cs
  alive (call_failed ∷ cs) = alive cs

  -- Every ping of the batch has its key among these, or among those from before.
  abbrev pub AllAlive : List (Management P) → List Text → List Text → Type 0
  AllAlive [] before keys = Unit {0}
  AllAlive (instance_properties p ∷ batch) before keys = AllAlive batch before keys
  AllAlive (instance_ping i ∷ batch) before keys =
      (exists_in (instance_ping_str i) before || exists_in (instance_ping_str i) keys ≡ true)
      × AllAlive batch before keys
  AllAlive (other_data ∷ batch) before keys = AllAlive batch before keys

  -- What a batch that went well has added to the calls.
  pub record Once (batch : List (Management P)) (before : List Text) (s t : ManagementClient P)
      : Type 0 where
    pub new : List (Call P)
    pub added : t.log ≡ s.log ++ new
    pub all_reported : reports new ≡ properties_in batch
    pub only_once : Fresh before (alive new)
    pub none_missed : AllAlive batch before (alive new)
