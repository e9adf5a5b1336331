-- ===== src/Topology/Route.antt =====
-- Where `route_kv_placement` of tempo/topology_router.py places data, and what it counts.
use working_tempo.Base.{
  ℕ, ◌+◌, ◌*◌, ◌<◌, ◌∙◌, sym, Option-cases, ◌≤◌, ◌≡◌, ◌≢◌, ◌⊎◌, refl, inl, inr, Bool, true, false,
  not, ◌&&◌, ◌||◌, Option, none, some, List, [], ◌∷◌, arith, elem, ltb, ◌==◌, Bool-cases,
  if◌then◌else◌, ap, false≢true,
}
use working_tempo.Base.Dict.{Dict, lookup, insert, Keyed, lookup-insert_self, lookup-insert_ne}
use working_tempo.Base.Frac.{Frac, whole, lt_frac}
use working_tempo.Topology.{
  TopologyRouter, PlacementDecision, local_peer, lustre_remote, deferred, slice_cap,
  route_kv_placement, candidates, same_group, is_same_group, decide, must_defer, least,
  compute_slice, register_peer_groups, peers_of, update,
}

elem-same_group :
    (s : TopologyRouter) (p : ℕ) (ps : List ℕ)
    → elem p (same_group s ps) ≡ (if is_same_group s p then elem p ps else false)
unfolding same_group
elem-same_group s p [] = ground arith
elem-same_group s p (q ∷ ps) = elim (Bool-cases (p == q)) [
  | inl same ↦
      let e : p ≡ q = ground (arith, same) in
      ground (arith, elem-same_group s p ps, same, ap (λ x. is_same_group s x) e)
  | inr other ↦ ground (arith, elem-same_group s p ps, other)
]

-- The step of the search, from the lesser of two candidates to both.
least_step :
    (m l p r : ℕ) (ps : List ℕ)
    → (m ≡ r) ⊎ (m ≡ p)
    → m ≤ r
    → m ≤ p
    → (elem l (m ∷ ps) ≡ true) × ((q : ℕ) → elem q (m ∷ ps) ≡ true → l ≤ q)
    → (elem l (p ∷ r ∷ ps) ≡ true) × ((q : ℕ) → elem q (p ∷ r ∷ ps) ≡ true → l ≤ q)
least_step m l p r ps one a b (h, k) =
    let under : l ≤ m = k m (ground arith) in
    (ground (arith, one, h), λ q i. ground (arith, i, a, b, under, k q))

-- The choice is one of the list, and none of the list is less.
least_lem :
    (p : ℕ) (ps : List ℕ)
    → (elem (least p ps) (p ∷ ps) ≡ true) × ((q : ℕ) → elem q (p ∷ ps) ≡ true → least p ps ≤ q)
least_lem p [] = (ground arith, λ q h. ground arith)
least_lem p (r ∷ ps) =
    let m : ℕ = if ltb r p then r else p in
    least_step m (least m ps) p r ps (ground arith) (ground arith) (ground arith) (least_lem m ps)

-- A candidate that is registered with the router's own group.
abbrev pub IsPeer : TopologyRouter → Option (List ℕ) → ℕ → Type 0
IsPeer s available q =
    (elem q (candidates s available) ≡ true) × (lookup q s.rank_to_group ≡ some s.my_group)

-- Less than 4 ms of the window are known to remain, or not.
abbrev pub IsLate : Option Frac → Type 0
IsLate remaining = (ms : Frac) × (remaining ≡ some ms) × (ms.num < 4 * ms.den)

abbrev pub IsEarly : Option Frac → Type 0
IsEarly remaining =
    (remaining ≡ none) ⊎ ((ms : Frac) × (remaining ≡ some ms) × (4 * ms.den ≤ ms.num))

pub must_defer-cases :
    (congested : Bool) (remaining : Option Frac)
    → (must_defer congested remaining ≡ true) × (congested ≡ true) × IsLate remaining
      ⊎ (must_defer congested remaining ≡ false) × ((congested ≡ false) ⊎ IsEarly remaining)
unfolding must_defer
must_defer-cases congested none = inr (refl, inr (inl refl))
must_defer-cases false (some ms) = inr (refl, inl refl)
must_defer-cases true (some ms) = elim (Bool-cases (lt_frac ms (whole 4))) [
  | inl less ↦ inl (less, refl, (ms, refl, ground (arith, less)))
  | inr more ↦ inr (more, inr (inr (ms, refl, ground (arith, more))))
]

is_same_group-registered :
    (s : TopologyRouter) (q : ℕ)
    → is_same_group s q ≡ true
    → lookup q s.rank_to_group ≡ some s.my_group
unfolding is_same_group
is_same_group-registered s q h = elim (Option-cases (lookup q s.rank_to_group)) [
  | inl gone ↦ absurd (ground (arith, gone, h))
  | inr (g, found) ↦ let e : g ≡ s.my_group = ground (arith, found, h) in found ∙ ap some e
]

registered-is_same_group :
    (s : TopologyRouter) (q : ℕ)
    → lookup q s.rank_to_group ≡ some s.my_group
    → is_same_group s q ≡ true
unfolding is_same_group
registered-is_same_group s q h = ground (arith, h)

pub in_group-IsPeer :
    (s : TopologyRouter) (available : Option (List ℕ)) (q : ℕ)
    → elem q (same_group s (candidates s available)) ≡ true
    → IsPeer s available q
in_group-IsPeer s available q h =
    let e = elem-same_group s q (candidates s available) in
    elim (Bool-cases (is_same_group s q)) [
      | inl same ↦ (ground (arith, e, h, same), is_same_group-registered s q same)
      | inr other ↦ absurd (ground (arith, e, h, other))
    ]

pub IsPeer-in_group :
    (s : TopologyRouter) (available : Option (List ℕ)) (q : ℕ)
    → IsPeer s available q
    → elem q (same_group s (candidates s available)) ≡ true
IsPeer-in_group s available q h =
    let e = elem-same_group s q (candidates s available) in
    let same = registered-is_same_group s q h.1 in ground (arith, e, same, h.0)

-- What a decision says.
abbrev pub Explains :
    TopologyRouter → Option (List ℕ) → Bool → Option Frac → ℕ → PlacementDecision → Type 0
Explains s available congested remaining size d =
    ((d.tier ≡ local_peer)
      × (d.crosses_global_link ≡ false)
      × (d.slice_size_bytes ≤ size)
      × (t : ℕ) × (d.target_rank ≡ some t)
      × IsPeer s available t
      × ((q : ℕ) → IsPeer s available q → t ≤ q))
    ⊎ (((q : ℕ) → IsPeer s available q → ⊥)
        × (d.crosses_global_link ≡ true)
        × (d.target_rank ≡ none)
        × (((d.tier ≡ deferred) × (congested ≡ true) × IsLate remaining)
            ⊎ ((d.tier ≡ lustre_remote)
                × ((congested ≡ false) ⊎ IsEarly remaining)
                × (d.slice_size_bytes ≤ size))))

-- The same, of the list that the code makes of the peers, and its test.
abbrev Decides : List ℕ → Bool → Option Frac → ℕ → PlacementDecision → Type 0
Decides group congested remaining size d =
    ((d.tier ≡ local_peer)
      × (d.crosses_global_link ≡ false)
      × (d.slice_size_bytes ≤ size)
      × (t : ℕ) × (d.target_rank ≡ some t)
      × (elem t group ≡ true)
      × ((q : ℕ) → elem q group ≡ true → t ≤ q))
    ⊎ ((group ≡ [])
        × (d.crosses_global_link ≡ true)
        × (d.target_rank ≡ none)
        × (((d.tier ≡ deferred) × (must_defer congested remaining ≡ true))
            ⊎ ((d.tier ≡ lustre_remote)
                × (must_defer congested remaining ≡ false)
                × (d.slice_size_bytes ≤ size))))

deferred-why :
    (congested : Bool) (remaining : Option Frac)
    → must_defer congested remaining ≡ true
    → (congested ≡ true) × IsLate remaining
deferred-why congested remaining h = elim (must_defer-cases congested remaining) [
  | inl late ↦ (late.1, late.2)
  | inr sent ↦ absurd (false≢true (sym sent.0 ∙ h))
]

sent-why :
    (congested : Bool) (remaining : Option Frac)
    → must_defer congested remaining ≡ false
    → (congested ≡ false) ⊎ IsEarly remaining
sent-why congested remaining h = elim (must_defer-cases congested remaining) [
  | inl late ↦ absurd (false≢true (sym h ∙ late.0))
  | inr sent ↦ sent.1
]

Decides-Explains :
    (s : TopologyRouter) (available : Option (List ℕ)) (congested : Bool) (remaining : Option Frac)
    (size : ℕ) (d : PlacementDecision)
    → Decides (same_group s (candidates s available)) congested remaining size d
    → Explains s available congested remaining size d
Decides-Explains s available congested remaining size d
      (inl (tier, cross, slice, t, target, own, least_of)) =
    inl (
      tier,
      cross,
      slice,
      t,
      target,
      in_group-IsPeer s available t own,
      λ q peer. least_of q (IsPeer-in_group s available q peer),
    )
Decides-Explains s available congested remaining size d (inr (alone, cross, target, how)) = inr (
  λ q peer. false≢true (sym (ap (elem q) alone) ∙ IsPeer-in_group s available q peer),
  cross,
  target,
  elim how [
    | inl late ↦ let why = deferred-why congested remaining late.1 in inl (late.0, why.0, why.1)
    | inr sent ↦ inr (sent.0, sent-why congested remaining sent.1, sent.2)
  ],
)

compute_slice-le :
    (quota : Frac) (size : ℕ)
    → (compute_slice quota size ≤ size) × (compute_slice quota size ≤ slice_cap)
unfolding compute_slice
compute_slice-le quota size = ground arith

decide-Decides :
    (size : ℕ) (group : List ℕ) (remaining : Option Frac) (hw : Bool) (s : TopologyRouter)
    → Decides group
        (s.global_link_saturated || hw)
        remaining
        size
        (decide size group remaining hw s).1
unfolding decide
decide-Decides size (p ∷ ps) remaining hw s =
    let (a, b) = least_lem p ps in inl (refl, refl, ground arith, least p ps, refl, a, b)
decide-Decides size [] remaining hw s =
    elim (Bool-cases (must_defer (s.global_link_saturated || hw) remaining)) [
      | inl wait ↦ rw (wait, decide) (inr (refl, refl, refl, inl (refl, refl)))
      | inr go ↦
          rw (go, decide)
            (inr
              (refl, refl, refl, inr (refl, refl, (compute_slice-le s.global_link_quota size).0)))
    ]

-- A decision is for the least of the candidates that are registered with the own group, without a
-- global link. Only where there is none does the data cross a global link, with no target: it is
-- deferred where the link is saturated, by the flag or by the counters, and less than 4 ms of the
-- window are known to remain; it goes to Lustre where the link is not saturated, or 4 ms or more or an
-- unknown time remain. A slice that is sent is not more than the data.
pub route_kv_placement-Explains :
    (size : ℕ) (available : Option (List ℕ)) (remaining : Option Frac) (congested : Bool)
    (s : TopologyRouter)
    → Explains s available
        (s.global_link_saturated || (s.has_hw_counters && congested))
        remaining
        size
        (route_kv_placement size available remaining congested s).1
unfolding route_kv_placement
route_kv_placement-Explains size available remaining congested s =
    Decides-Explains s available (s.global_link_saturated || (s.has_hw_counters && congested))
      remaining size (route_kv_placement size available remaining congested s).1
      (decide-Decides size (same_group s (candidates s available)) remaining
        (s.has_hw_counters && congested) (record s { total_decisions = s.total_decisions + 1 }))

-- `update` with a dict reads as the dict does, and elsewhere as before.
lookup-update_ne :
    (r : ℕ) (d groups : Dict ℕ) → lookup r groups ≡ none → lookup r (update d groups) ≡ lookup r d
lookup-update_ne r d [] h = refl
lookup-update_ne r d ((q, g) ∷ groups) h =
    ground (arith, h, lookup-update_ne r (insert q g d) groups, lookup-insert_ne r q g d)

lookup-update :
    (r g : ℕ) (d groups : Dict ℕ)
    → Keyed groups
    → lookup r groups ≡ some g
    → lookup r (update d groups) ≡ some g
lookup-update r g d [] u h = cc
lookup-update r g d ((q, f) ∷ groups) u h = ground (
  arith,
  u.0,
  lookup-update r g (insert q f d) groups u.1,
  lookup-update_ne r (insert q f d) groups,
  lookup-insert_self q f d,
)

elem-peers_of :
    (group rank p : ℕ) (groups : Dict ℕ)
    → Keyed groups
    → elem p (peers_of group rank groups) ≡ true
    → (lookup p groups ≡ some group) × (p ≢ rank)
unfolding peers_of
elem-peers_of group rank p [] u h = absurd (false≢true h)
elem-peers_of group rank p ((r, g) ∷ groups) u h =
    elim (Bool-cases (g == group && not (r == rank))) [
      | inl here ↦ ground (arith, here, u.0, h, elem-peers_of group rank p groups u.1)
      | inr gone ↦ ground (arith, gone, u.0, h, elem-peers_of group rank p groups u.1)
    ]

-- After the groups of all ranks are registered, each local peer is another rank, registered with the
-- own group, and the router finds it to be of the same group.
pub register_peer_groups-peers :
    (groups : Dict ℕ) (s : TopologyRouter) (p : ℕ)
    → Keyed groups
    → let t = register_peer_groups groups s in
      elem p t.local_peers ≡ true
      → (lookup p groups ≡ some s.my_group) × (p ≢ s.rank) × (is_same_group t p ≡ true)
unfolding register_peer_groups is_same_group
register_peer_groups-peers groups s p u h =
    let (a, b) = elem-peers_of s.my_group s.rank p groups u h in
    (a, b, ground (arith, lookup-update p s.my_group s.rank_to_group groups u a))
