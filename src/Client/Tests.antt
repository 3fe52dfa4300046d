-- ===== src/Client/Tests.antt =====
-- The theorem of Pick at a picker over two connections.
use skywalking_satellite.Base.{ℕ, ◌≡◌, some, [], ◌∷◌}
use skywalking_satellite.Client.{
  ConnectionWrap, SatelliteDynamicPicker, LoadBalancerConfig, build, Sound, build-Sound, Picked,
  pick, pick-Picked,
}

abbrev one : ConnectionWrap ℕ
one = record { addr = 10; conn = 1 }

abbrev two : ConnectionWrap ℕ
two = record { addr = 20; conn = 2 }

abbrev both : SatelliteDynamicPicker ℕ
both = (build-Sound one (two ∷ [])).0

abbrev keyed : LoadBalancerConfig
keyed = record { route_key = 7 ∷ []; appoint_addr = some 20 }

pick-Picked_example : Picked (λ k. 5) (some keyed) both (pick (λ k. 5) (some keyed) both)
pick-Picked_example = pick-Picked (λ k. 5) (some keyed) both (build-Sound one (two ∷ [])).3

build-Sound_example :
    (p : SatelliteDynamicPicker ℕ) × (build (one ∷ two ∷ []) ≡ some p)
    × (p.cons ≡ one ∷ two ∷ [])
    × Sound p
build-Sound_example = build-Sound one (two ∷ [])
