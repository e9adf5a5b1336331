-- ===== src/Topology.antt =====
-- `TopologyRouter` of tempo/topology_router.py. A host name is the list of its character codes, of
-- which the digits are the ASCII ones. What `is_fabric_congested` answers is an argument of each
-- decision that may ask it.
pub mod Route
mod Tests
use working_tempo.Base.{
  ℕ, zero, suc, ◌+◌, ◌-◌, ◌*◌, ◌/◌, min, Bool, true, false, not, ◌&&◌, ◌||◌, Option, none, some,
  List, [], ◌∷◌, if◌then◌else◌, ltb, leb, ◌==◌,
}
use working_tempo.Base.Dict.{Dict, lookup, insert}
use working_tempo.Base.Frac
use working_tempo.Base.Frac.{Frac, frac, whole, lt_frac}

pub data PlacementTier : Type 0 where
  local_peer lustre_local lustre_remote deferred : PlacementTier

-- The texts of `reason`; the flag is the note "[hw-ecn]".
pub data Reason : Type 0 where
  intra_group : Reason
  link_saturated : Bool → Reason
  sliced : Reason

pub record PlacementDecision : Type 0 where
  pub tier : PlacementTier
  pub target_rank : Option ℕ
  pub slice_size_bytes : ℕ
  pub estimated_latency_ms : Frac
  pub crosses_global_link : Bool
  pub reason : Reason

pub record TopologyRouter : Type 0 where
  pub rank : ℕ
  pub group_size : ℕ
  pub global_link_quota : Frac
  pub my_nid : Option ℕ
  pub my_group : ℕ
  pub rank_to_group : Dict ℕ
  pub local_peers : List ℕ
  pub global_link_saturated : Bool
  pub has_hw_counters : Bool
  pub total_decisions : ℕ
  pub local_decisions : ℕ
  pub deferred_decisions : ℕ

-- `_LINK_BPS`, `_MAX_SLICE_BYTES` and the bound of 128 MiB.
abbrev pub link_bps : ℕ
link_bps = 200000000000

abbrev pub max_slice_bytes : ℕ
max_slice_bytes = 40 * 1024 * 1024

abbrev pub slice_cap : ℕ
slice_cap = 128 * 1024 * 1024

-- The number that a run of digits stands for, behind the `seen` digits read so far: none without
-- one. The zeros that `0*` takes do not change it.
abbrev digits : List ℕ → Bool → ℕ → Option ℕ
digits [] seen n = if seen then some n else none
digits (c ∷ cs) seen n =
    if leb 48 c && leb c 57
    then digits cs true (n * 10 + (c - 48))
    else if seen
    then some n
    else none

-- `re.match(r"nid0*(\d+)", hostname)`
unfoldable pub parse_nid : List ℕ → Option ℕ
parse_nid (n ∷ i ∷ d ∷ cs) =
    let run = digits cs false 0 in if n == 110 && i == 105 && d == 100 then run else none
parse_nid _ = none

abbrev pub nid_to_group : ℕ → ℕ → ℕ
nid_to_group nid group_size = nid / group_size

-- `__init__`: without a node id the group comes from the rank.
unfoldable pub new_router : ℕ → ℕ → Frac → List ℕ → Bool → TopologyRouter
unfolding parse_nid
new_router rank group_size quota hostname hw =
    let nid = parse_nid hostname in
    let group : ℕ = elim nid [ some n ↦ nid_to_group n group_size | none ↦ rank / group_size ] in
    record {
      rank = rank;
      group_size = group_size;
      global_link_quota = quota;
      my_nid = nid;
      my_group = group;
      rank_to_group = (rank, group) ∷ [];
      local_peers = [];
      global_link_saturated = false;
      has_hw_counters = hw;
      total_decisions = 0;
      local_decisions = 0;
      deferred_decisions = 0;
    }

-- `dict.update`
abbrev pub update : Dict ℕ → Dict ℕ → Dict ℕ
update d [] = d
update d ((r, g) ∷ more) = update (insert r g d) more

-- `[r for r, g in rank_to_group.items() if g == self._my_group and r != self.rank]`
unfoldable pub peers_of : ℕ → ℕ → Dict ℕ → List ℕ
peers_of group rank [] = []
peers_of group rank ((r, g) ∷ more) =
    let rest = peers_of group rank more in if g == group && not (r == rank) then r ∷ rest else rest

unfoldable pub register_peer_groups : Dict ℕ → TopologyRouter → TopologyRouter
unfolding peers_of
register_peer_groups groups s = record s {
  rank_to_group = update s.rank_to_group groups;
  local_peers = peers_of s.my_group s.rank groups;
}

abbrev pub set_global_link_saturated : Bool → TopologyRouter → TopologyRouter
set_global_link_saturated saturated s = record s { global_link_saturated = saturated }

-- `self._rank_to_group.get(rank, -1) == self._my_group`: no group is -1.
unfoldable pub is_same_group : TopologyRouter → ℕ → Bool
is_same_group s rank = elim (lookup rank s.rank_to_group) [
  | some g ↦ g == s.my_group
  | none ↦ false
]

unfoldable pub is_cross_group : TopologyRouter → ℕ → Bool
is_cross_group s rank = elim (lookup rank s.rank_to_group) [
  | some g ↦ not (g == s.my_group)
  | none ↦ true
]

-- 0.001 ms, and 25 GiB per second.
unfoldable pub local_latency_ms : ℕ → Frac
local_latency_ms size =
    Frac.add (frac 1 1000) (Frac.div (whole size) (frac (25 * 1024 * 1024 * 1024) 1000))

-- 0.5 ms, and 10 GiB per second.
unfoldable pub lustre_latency_ms : ℕ → Frac
lustre_latency_ms size =
    Frac.add (frac 5 10) (Frac.div (whole size) (frac (10 * 1024 * 1024 * 1024) 1000))

-- The quota of the link for 8 ms, cut to whole bytes.
unfoldable pub compute_slice : Frac → ℕ → ℕ
compute_slice quota total_bytes =
    let per_window = link_bps * quota.num * 8 / (quota.den * 8 * 1000) in
    min (min per_window total_bytes) slice_cap

-- `[p for p in peers if self._is_same_group(p)]`
unfoldable pub same_group : TopologyRouter → List ℕ → List ℕ
unfolding is_same_group
same_group s [] = []
same_group s (p ∷ ps) = let rest = same_group s ps in if is_same_group s p then p ∷ rest else rest

-- `min` of a list that is not empty
abbrev pub least : ℕ → List ℕ → ℕ
least p [] = p
least p (q ∷ qs) = least (if ltb q p then q else p) qs

-- `must_defer`, of the congestion and the window that remains.
unfoldable pub must_defer : Bool → Option Frac → Bool
must_defer saturated remaining = elim remaining [
  | some ms ↦ saturated && lt_frac ms (whole 4)
  | none ↦ false
]

-- `nccl_window_ms_remaining or 0`
abbrev remaining_ms : Option Frac → Frac
remaining_ms remaining = elim remaining [ some ms ↦ ms | none ↦ whole 0 ]

unfoldable pub decide :
    ℕ → List ℕ → Option Frac → Bool → TopologyRouter → TopologyRouter × PlacementDecision
unfolding must_defer compute_slice local_latency_ms lustre_latency_ms
decide size [] remaining hw s =
    if must_defer (s.global_link_saturated || hw) remaining
    then (
      record s { deferred_decisions = s.deferred_decisions + 1 },
      record {
        tier = deferred;
        target_rank = none;
        slice_size_bytes = max_slice_bytes;
        estimated_latency_ms = Frac.add (remaining_ms remaining) (whole 8);
        crosses_global_link = true;
        reason = link_saturated hw;
      },
    )
    else (
      s,
      record {
        tier = lustre_remote;
        target_rank = none;
        slice_size_bytes = compute_slice s.global_link_quota size;
        estimated_latency_ms = lustre_latency_ms size;
        crosses_global_link = true;
        reason = sliced;
      },
    )
decide size (p ∷ ps) remaining hw s = (
  record s { local_decisions = s.local_decisions + 1 },
  record {
    tier = local_peer;
    target_rank = some (least p ps);
    slice_size_bytes = min size slice_cap;
    estimated_latency_ms = local_latency_ms size;
    crosses_global_link = false;
    reason = intra_group;
  },
)

-- The peers that the caller offers, and else those of the group.
abbrev pub candidates : TopologyRouter → Option (List ℕ) → List ℕ
candidates s available = elim available [ some ps ↦ ps | none ↦ s.local_peers ]

unfoldable pub route_kv_placement :
    ℕ → Option (List ℕ) → Option Frac → Bool → TopologyRouter → TopologyRouter × PlacementDecision
unfolding same_group decide
route_kv_placement size available remaining congested s =
    decide size (same_group s (candidates s available)) remaining (s.has_hw_counters && congested)
      (record s { total_decisions = s.total_decisions + 1 })
