-- ===== src/Topology/Tests.antt =====
-- Tests of `TopologyRouter` (tempo/topology_router.py), and the theorems at a router of four ranks.
use working_tempo.Base.{ℕ, ◌≡◌, ◌≢◌, ◌&&◌, ◌||◌, refl, true, none, some, List, [], ◌∷◌, arith}
use working_tempo.Base.Dict.{Dict, lookup, Keyed}
use working_tempo.Base.Frac.{frac, whole}
use working_tempo.Topology.{
  TopologyRouter, parse_nid, new_router, register_peer_groups, peers_of, same_group, is_same_group,
  route_kv_placement, decide, must_defer, deferred,
}
use working_tempo.Topology.Route.{Explains, route_kv_placement-Explains, register_peer_groups-peers}

-- "nid001234"
abbrev hostname : List ℕ
hostname = 110 ∷ 105 ∷ 100 ∷ 48 ∷ 48 ∷ 49 ∷ 50 ∷ 51 ∷ 52 ∷ []

nid_run : parse_nid hostname ≡ some 1234
unfolding parse_nid
nid_run = refl

-- A host of another name.
no_nid_run : parse_nid (108 ∷ 111 ∷ 103 ∷ 105 ∷ 110 ∷ []) ≡ none
unfolding parse_nid
no_nid_run = refl

abbrev router : TopologyRouter
router = new_router 1 64 (frac 1 5) hostname true

abbrev groups : Dict ℕ
groups = (0, 3) ∷ (1, 19) ∷ (2, 19) ∷ (3, 19) ∷ []

groups-Keyed : Keyed groups
groups-Keyed = ground arith

register_peer_groups-peers_example :
    (lookup 3 groups ≡ some router.my_group)
    × (◌≢◌ {A = ℕ} 3 1)
    × (is_same_group (register_peer_groups groups router) 3 ≡ true)
unfolding register_peer_groups peers_of new_router parse_nid
register_peer_groups-peers_example = register_peer_groups-peers groups router 3 groups-Keyed refl

-- Only rank 0 is offered, which is of another group, and the window closes.
deferred_run :
    (route_kv_placement 10 (some (0 ∷ [])) (some (whole 3)) true router).1.tier ≡ deferred
unfolding route_kv_placement decide same_group is_same_group must_defer new_router parse_nid
deferred_run = refl

route_kv_placement-Explains_example :
    Explains router
      (some (0 ∷ 1 ∷ []))
      (router.global_link_saturated || (router.has_hw_counters && true))
      (some (whole 3))
      10
      (route_kv_placement 10 (some (0 ∷ 1 ∷ [])) (some (whole 3)) true router).1
route_kv_placement-Explains_example =
    route_kv_placement-Explains 10 (some (0 ∷ 1 ∷ [])) (some (whole 3)) true router
