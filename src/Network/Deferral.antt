-- ===== src/Network/Deferral.antt =====
-- `CassiniHWCounters` (tempo/network_monitor.py) as the source of `is_fabric_congested` for the
-- placement of tempo/topology_router.py.
use working_tempo.Base.{
  ℕ, ◌+◌, ◌-◌, ◌≤◌, ◌<◌, ◌≡◌, ◌∙◌, ap, ap₂, subst, leb→le, ◌⊎◌, inl, inr, refl, Bool, true, false,
  ◌||◌, ◌&&◌, Option, none, some, Option-cases, List, [], ◌∷◌, arith, leb,
}
use working_tempo.Base.Frac.{Frac}
use working_tempo.Topology.{
  TopologyRouter, PlacementDecision, lustre_remote, deferred, route_kv_placement,
}
use working_tempo.Topology.Route.{IsPeer, IsLate, IsEarly, Explains, route_kv_placement-Explains}
use working_tempo.Network.Cassini.{
  Reading, Device, HwCounters, read_nic_counters, deltas, advance, advance_all, flits, poll,
  is_fabric_congested,
}

-- The congestion flits that arrived since the last poll, of the NICs with a reading: none where the
-- counter cannot be read or has run back.
abbrev pub arrived_at : Option ℕ → ℕ → ℕ
arrived_at none before = 0
arrived_at (some now) before = now - before

abbrev pub arrivals : List Reading → List Device → ℕ
arrivals rs [] = 0
arrivals [] (d ∷ ds) = 0
arrivals (r ∷ rs) (d ∷ ds) = arrived_at r.congestion_flits d.prev.congestion_flits + arrivals rs ds

no_reading-flits : (ds : List Device) → flits (advance_all [] ds) ≡ 0
unfolding advance_all advance read_nic_counters deltas
no_reading-flits [] = refl
no_reading-flits (d ∷ ds) = omega (arith, no_reading-flits ds)

delta-arrived_at :
    (r : Reading) (d : Device)
    → (advance r d).delta.congestion_flits ≡ arrived_at r.congestion_flits d.prev.congestion_flits
unfolding advance read_nic_counters deltas
delta-arrived_at r d = elim (Option-cases r.congestion_flits) [
  | inl unread ↦ ground (arith, unread)
  | inr (now, read) ↦ ground (arith, read)
]

flits-arrivals : (rs : List Reading) (ds : List Device) → flits (advance_all rs ds) ≡ arrivals rs ds
unfolding advance_all
flits-arrivals rs [] = refl
flits-arrivals [] (d ∷ ds) = no_reading-flits (d ∷ ds)
flits-arrivals (r ∷ rs) (d ∷ ds) = ap₂ (◌+◌) (delta-arrived_at r d) (flits-arrivals rs ds)

-- What becomes of data that no peer of the group takes, for the congestion flits that arrived.
abbrev pub IsPlaced : ℕ → ℕ → Option Frac → PlacementDecision → Type 0
IsPlaced threshold arrived remaining d =
    (threshold ≤ arrived) × IsLate remaining × (d.tier ≡ deferred)
    ⊎ ((arrived < threshold) ⊎ IsEarly remaining) × (d.tier ≡ lustre_remote)

-- Without a peer, a decision is deferred or goes to Lustre.
alone-tier :
    (s : TopologyRouter) (available : Option (List ℕ)) (flag : Bool) (remaining : Option Frac)
    (size : ℕ) (d : PlacementDecision)
    → ((q : ℕ) → IsPeer s available q → ⊥)
    → Explains s available flag remaining size d
    → (flag ≡ true) × IsLate remaining × (d.tier ≡ deferred)
      ⊎ ((flag ≡ false) ⊎ IsEarly remaining) × (d.tier ≡ lustre_remote)
alone-tier s available flag remaining size d alone
      (inl (tier, cross, slice, t, target, peer, least_of)) =
    absurd (alone t peer)
alone-tier s available flag remaining size d alone (inr (peers, cross, target, inl late)) =
    inl (late.1, late.2, late.0)
alone-tier s available flag remaining size d alone (inr (peers, cross, target, inr sent)) =
    inr (sent.1, sent.0)

not_reached : (threshold arrived : ℕ) → leb threshold arrived ≡ false → arrived < threshold
not_reached threshold arrived h = ground (arith, h)

place :
    (threshold arrived : ℕ) (remaining : Option Frac) (d : PlacementDecision)
    → (leb threshold arrived ≡ true) × IsLate remaining × (d.tier ≡ deferred)
      ⊎ ((leb threshold arrived ≡ false) ⊎ IsEarly remaining) × (d.tier ≡ lustre_remote)
    → IsPlaced threshold arrived remaining d
place threshold arrived remaining d (inl late) =
    inl (leb→le threshold arrived late.0, late.1, late.2)
place threshold arrived remaining d (inr (inl quiet, tier)) =
    inr (inl (not_reached threshold arrived quiet), tier)
place threshold arrived remaining d (inr (inr early, tier)) = inr (inr early, tier)

-- Behind a poll of the hardware counters, on a router that has them and is without the manual flag,
-- data for which no candidate is registered with the own group is deferred where the congestion flits
-- that arrived since the last poll reach the threshold and less than 4 ms of the window are known to
-- remain; where fewer arrived, or 4 ms or more or an unknown time remain, it goes to Lustre.
pub poll-IsPlaced :
    (rs : List Reading) (h : HwCounters) (size : ℕ) (available : Option (List ℕ))
    (remaining : Option Frac) (s : TopologyRouter)
    → ((q : ℕ) → IsPeer s available q → ⊥)
    → s.has_hw_counters ≡ true
    → s.global_link_saturated ≡ false
    → IsPlaced h.congestion_threshold
        (arrivals rs h.devices)
        remaining
        (route_kv_placement size available remaining (is_fabric_congested (poll rs h)) s).1
unfolding poll
poll-IsPlaced rs h size available remaining s alone hw free =
    let congested = leb h.congestion_threshold (flits (advance_all rs h.devices)) in
    let d = (route_kv_placement size available remaining congested s).1 in
    let flag : (s.global_link_saturated || (s.has_hw_counters && congested)) ≡ congested =
      ap (λ (b : Bool). b || (s.has_hw_counters && congested)) free
      ∙ ap (λ (b : Bool). b && congested) hw in
    let same = flag ∙ ap (leb h.congestion_threshold) (flits-arrivals rs h.devices) in
    place h.congestion_threshold (arrivals rs h.devices) remaining d (
      alone-tier s available (leb h.congestion_threshold (arrivals rs h.devices)) remaining size d
        alone
        (subst (λ (b : Bool). Explains s available b remaining size d) same
          (route_kv_placement-Explains size available remaining congested s)))
