-- ===== src/Network/Tests.antt =====
-- Tests of tempo/network_monitor.py, and the theorems at concrete monitors.
use working_tempo.Base.{
  false≢true, ℕ, ◌+◌, ◌≤◌, ◌≡◌, refl, true, false, not, ◌&&◌, none, some, List, [], ◌∷◌, arith,
  if◌then◌else◌,
}
use working_tempo.Base.Frac.{frac, whole, le_frac, LeFrac}
use working_tempo.Topology.{TopologyRouter, route_kv_placement}
use working_tempo.Network.{
  NetworkMonitor, new_monitor, link_speed, congestion_thresh, threshold_bps,
  update_congestion_state,
}
use working_tempo.Network.Congestion.{
  IsMeasured, Event, simulated_at, stops, run, run-IsMeasured, update_congestion_state_lem,
}
use working_tempo.Network.Rails.{
  per_rail_util, select_idle_rail, count_idle_rails, predict_congestion_ms, pick_rail, least,
}
use working_tempo.Network.Choice.{
  IsChoice, select_idle_rail-IsChoice, Foretells, predict_congestion_ms-Foretells,
}
use working_tempo.Network.Cassini.{
  Reading, HwCounters, new_counters, poll as poll_counters, is_fabric_congested,
}
use working_tempo.Network.Retransmits.{latest_retx, poll_all, poll_all-covers}
use working_tempo.Topology.Route.{IsPeer}
use working_tempo.Network.Deferral.{arrivals, IsPlaced, poll-IsPlaced}

-- Two NICs, the first of them loaded.
abbrev loaded : NetworkMonitor
loaded = record (new_monitor congestion_thresh link_speed []) {
  nics =
      record { name = 0; last = none; ema = whole 20000000000; window = [] }
      ∷ record { name = 1; last = none; ema = whole 1000000; window = [] }
      ∷ [];
  total_bps_ema = whole 10000000000;
}

-- The second rail is the idle one.
loaded-rail : select_idle_rail loaded ≡ some 1
unfolding select_idle_rail per_rail_util pick_rail least
loaded-rail = refl

abbrev events : List (ℕ × Event)
events = (10, simulated_at (whole 30000000000)) ∷ (25, simulated_at (whole 0)) ∷ (40, stops) ∷ []

fresh-IsMeasured : IsMeasured 0 0 (new_monitor congestion_thresh link_speed [])
fresh-IsMeasured = ground arith

update_congestion_state_lem_run :
    let after = update_congestion_state 5 (whole 30000000000) loaded in
    let congested = le_frac (threshold_bps loaded) (whole 30000000000) in
    (after.io_allowed ≡ not congested)
    × (after.congestion_events ≡ 0 + (if congested && true then 1 else 0))
    × LeFrac (whole 30000000000) after.peak_bps
    × LeFrac (whole 0) after.peak_bps
update_congestion_state_lem_run = update_congestion_state_lem 5 (whole 30000000000) loaded

run-IsMeasured_example :
    let after = run events (new_monitor congestion_thresh link_speed []) in
    IsMeasured 0 50 after × (0 + after.total_congestion ≤ 50)
run-IsMeasured_example =
    run-IsMeasured 0 0 50 events (new_monitor congestion_thresh link_speed []) fresh-IsMeasured
      (omega arith, (omega arith, (omega arith, omega arith)))

select_idle_rail-IsChoice_example :
    IsChoice congestion_thresh
      (per_rail_util loaded)
      (select_idle_rail loaded)
      (count_idle_rails loaded)
select_idle_rail-IsChoice_example =
    select_idle_rail-IsChoice loaded (omega arith) (omega arith, (omega arith, tt)) refl

predict_congestion_ms-Foretells_run :
    Foretells (whole 9000000000) loaded (predict_congestion_ms (whole 9000000000) loaded)
predict_congestion_ms-Foretells_run =
    predict_congestion_ms-Foretells (whole 9000000000) loaded (omega arith) (omega arith) refl

abbrev counters : HwCounters
counters = new_counters 2 1

abbrev readings : List Reading
readings =
    record {
      congestion_flits = some 2;
      reliability_retx = some 5;
      tx_stall_ns = none;
      hwmark_pct = none;
    }
    ∷ record {
      congestion_flits = none;
      reliability_retx = some 4;
      tx_stall_ns = some 90;
      hwmark_pct = none;
    }
    ∷ []

poll_all-covers_run :
    latest_retx (poll_all (readings ∷ []) counters).devices + 0
    ≤ 0 + (poll_all (readings ∷ []) counters).total_retx
poll_all-covers_run = poll_all-covers (readings ∷ []) counters

abbrev router : TopologyRouter
router = record {
  rank = 0;
  group_size = 4;
  global_link_quota = frac 20 100;
  my_nid = none;
  my_group = 0;
  rank_to_group = (0, 0) ∷ [];
  local_peers = [];
  global_link_saturated = false;
  has_hw_counters = true;
  total_decisions = 0;
  local_decisions = 0;
  deferred_decisions = 0;
}

alone : (q : ℕ) → IsPeer router none q → ⊥
alone q peer = false≢true peer.0

poll-IsPlaced_example :
    IsPlaced 1
      (arrivals readings counters.devices)
      (some (whole 3))
      (route_kv_placement 1000 none
        (some (whole 3))
        (is_fabric_congested (poll_counters readings counters))
        router).1
poll-IsPlaced_example =
    poll-IsPlaced readings counters 1000 none (some (whole 3)) router alone refl refl
