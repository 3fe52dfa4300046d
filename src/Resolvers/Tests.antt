-- ===== src/Resolvers/Tests.antt =====
-- Static addresses and a message of groups.
use skywalking_satellite.Base.{
  ℕ, ◌≡◌, refl, Bool, true, false, Option, none, some, List, [], ◌∷◌, ◌++◌, drop, Text, join,
}
use skywalking_satellite.Resolvers.{
  static_schema, comma, ParsesTarget, build_target, target, analyze_clients, static-addresses,
}
use skywalking_satellite.Resolvers.Kinds.{
  Group, LabelSet, address_label, pod_port_label, exported_address, get_addresses, has_suffix,
  of_targets,
}
use skywalking_satellite.Resolvers.Watch.{on_groups, lookup, latest, on_groups_lem}

-- The connection keeps what it was given; the newest stands first.
abbrev keep : List Text → List (List Text) → Bool × List (List Text)
keep l w = (true, l ∷ w)

abbrev parse : Text → Text
parse = drop 9

abbrev parse-ParsesTarget : ParsesTarget parse
parse-ParsesTarget = λ e h. refl

static-addresses_example :
    (t : Text) × (build_target (record {
      finder_type = static_schema;
      server_addr = join comma ((97 ∷ []) ∷ (98 ∷ []) ∷ []);
      kubernetes_config = none;
    })
      ≡ target t)
    × (analyze_clients keep (parse t) [] ≡ ((97 ∷ []) ∷ (98 ∷ []) ∷ []) ∷ [])
unfolding join
static-addresses_example =
    static-addresses parse keep none (97 ∷ []) ((98 ∷ []) ∷ []) [] parse-ParsesTarget
      ((refl, tt), ((refl, tt), tt)) (refl, (refl, (refl, tt))) refl

-- h:80
abbrev pod_at_80 : LabelSet
pod_at_80 address_label = some (104 ∷ 58 ∷ 56 ∷ 48 ∷ [])
pod_at_80 pod_port_label = none

abbrev group_a : Group
group_a = record { source = 97 ∷ []; targets = pod_at_80 ∷ [] }

abbrev gone_a : Group
gone_a = record { source = 97 ∷ []; targets = [] }

exported_at_80 :
    get_addresses (exported_address 80) (group_a ∷ gone_a ∷ []) ≡ (104 ∷ 58 ∷ 56 ∷ 48 ∷ []) ∷ []
unfolding get_addresses exported_address has_suffix skywalking_satellite.Base.itoa
    skywalking_satellite.Base.itoa_from of_targets skywalking_satellite.Base.list_eq
exported_at_80 = refl

exported_at_8080 : get_addresses (exported_address 8080) (group_a ∷ []) ≡ []
unfolding get_addresses exported_address has_suffix skywalking_satellite.Base.itoa
    skywalking_satellite.Base.itoa_from of_targets skywalking_satellite.Base.list_eq
exported_at_8080 = refl

abbrev exported : List Group → List Text
exported = get_addresses (exported_address 80)

on_groups_lem_example :
    (lookup exported keep (97 ∷ []) (on_groups exported keep (group_a ∷ gone_a ∷ []) ([], [])).0
      ≡ latest exported keep (97 ∷ []) (group_a ∷ gone_a ∷ []) none)
    × ((on_groups exported keep ((group_a ∷ gone_a ∷ []) ++ (group_a ∷ [])) ([], [])).1
        ≡ (keep
            (exported
              (on_groups exported keep ((group_a ∷ gone_a ∷ []) ++ (group_a ∷ [])) ([], [])).0)
            (on_groups exported keep (group_a ∷ gone_a ∷ []) ([], [])).1).1)
    × ((on_groups exported keep (gone_a ∷ []) ([], [])).1 ≡ [])
on_groups_lem_example =
    on_groups_lem exported keep (group_a ∷ gone_a ∷ []) (gone_a ∷ []) group_a pod_at_80 [] ([], [])
      (97 ∷ []) refl (refl, tt)
