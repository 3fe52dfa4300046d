-- ===== src/Forwarders/Management.antt =====
-- plugins/forwarder/grpc/nativemanagement/forwarder.go: the properties of instances are reported, and
-- every instance is kept alive once for a batch.
pub mod Once
use skywalking_satellite.Base.{
  ℕ, ◌≡◌, refl, sym, ap, ◌∙◌, Bool, true, false, ◌||◌, Bool-cases, List, [], ◌∷◌, ◌++◌,
  append_assoc, append-nil, length, if◌then◌else◌, Text, text_eq, text_eq_iff, inl, inr,
}

-- The fields of an instance ping that are read.
pub record InstancePing : Type 0 where
  pub service : Text
  pub service_instance : Text

-- What an event of the batch holds, by GetInstance and GetInstancePing.
pub data Management (P : Type 0) : Type 0 where
  instance_properties : P → Management P
  instance_ping : InstancePing → Management P
  other_data : Management P

-- The calls of the generated client, and whether they went well.
pub data Call (P : Type 0) : Type 0 where
  reported : P → Call P
  kept_alive : InstancePing → Call P
  call_failed : Call P

-- `fate n` says whether the n-th call goes well.
pub record ManagementClient (P : Type 0) : Type 0 where
  pub fate : ℕ → Bool
  pub log : List (Call P)

-- `fmt.Sprintf("%s_%s", …)`
unfoldable pub instance_ping_str : InstancePing → Text
instance_ping_str i = i.service ++ (b'_' ∷ i.service_instance)

-- a key of the map pingOnce
unfoldable pub exists_in : Text → List Text → Bool
exists_in key [] = false
exists_in key (k ∷ ks) = text_eq k key || exists_in key ks

-- No key twice, and none of those from before.
abbrev pub Fresh : List Text → List Text → Type 0
Fresh before [] = Unit {0}
Fresh before (k ∷ ks) = (exists_in k before ≡ false) × Fresh (k ∷ before) ks

pub or_moved : (a b c : Bool) → ((a || b) || c ≡ true) → (b || (a || c) ≡ true)
or_moved true true c h = refl
or_moved true false c h = refl
or_moved false true c h = refl
or_moved false false c h = h

pub first_exists :
    (key : Text) (before keys : List Text)
    → exists_in key before || exists_in key (key ∷ keys) ≡ true
unfolding exists_in
first_exists key before keys = elim (Bool-cases (exists_in key before)) [
  | inl there ↦ rw there refl
  | inr away ↦ rw (away, (text_eq_iff key key).1 refl) refl
]

module _ {P : Type 0} where
  unfoldable pub call : Call P → ManagementClient P → Bool × ManagementClient P
  call c s =
      if s.fate (length s.log)
      then (true, record s { log = s.log ++ (c ∷ []) })
      else (false, record s { log = s.log ++ (call_failed ∷ []) })

  -- The loop of Forward, with the keys of pingOnce.
  unfoldable pub forward_from :
      List (Management P) → List Text → ManagementClient P → Bool × ManagementClient P
  forward_from [] ping_once s = (true, s)
  forward_from (instance_properties p ∷ batch) ping_once s =
      let (fine, s') = call (reported p) s in
      let rest = forward_from batch ping_once s' in if fine then rest else (false, s')
  forward_from (instance_ping i ∷ batch) ping_once s =
      let (fine, s') = call (kept_alive i) s in
      let passed_over = forward_from batch ping_once s in
      let rest = forward_from batch (instance_ping_str i ∷ ping_once) s' in
      if exists_in (instance_ping_str i) ping_once
      then passed_over
      else (if fine then rest else (false, s'))
  forward_from (other_data ∷ batch) ping_once s = forward_from batch ping_once s

  unfoldable pub forward : List (Management P) → ManagementClient P → Bool × ManagementClient P
  forward batch s = forward_from batch [] s
