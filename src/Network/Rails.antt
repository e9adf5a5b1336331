-- ===== src/Network/Rails.antt =====
-- The queries of `NetworkMonitor` (tempo/network_monitor.py) for the scheduler: idle rails and the
-- time until congestion.
use working_tempo.Base.{ℕ, ◌+◌, not, Option, none, some, List, [], ◌∷◌, map, if◌then◌else◌}
use working_tempo.Base.Frac
use working_tempo.Base.Frac.{Frac, frac, whole, lt_frac, le_frac, max_frac, LeFrac}
use working_tempo.Network.{Nic, NetworkMonitor, simulated, util_of}

-- The NIC, or the rail, with its utilisation.
abbrev pub Rail : Type 0
Rail = ℕ × Frac

unfoldable pub per_rail_util : NetworkMonitor → List Rail
per_rail_util m =
    if simulated m then [] else map (λ (nic : Nic). (nic.name, util_of m nic.ema)) m.nics

-- `min` with a key: the first of the least.
unfoldable pub least : Rail → List Rail → Rail
least best [] = best
least best (rail ∷ rails) = least (if lt_frac rail.1 best.1 then rail else best) rails

-- Of the utilisation of the rails.
unfoldable pub pick_rail : Frac → List Rail → Option ℕ
unfolding least
pick_rail threshold [] = none
pick_rail threshold (rail ∷ rails) =
    let best = least rail rails in if le_frac threshold best.1 then none else some best.0

unfoldable pub select_idle_rail : NetworkMonitor → Option ℕ
unfolding per_rail_util pick_rail
select_idle_rail m = pick_rail m.congestion_threshold (per_rail_util m)

-- `sum(1 for u in ... if u < self.congestion_threshold)`
unfoldable pub count_below : Frac → List Rail → ℕ
count_below threshold [] = 0
count_below threshold (rail ∷ rails) =
    (if lt_frac rail.1 threshold then 1 else 0) + count_below threshold rails

unfoldable pub count_idle_rails : NetworkMonitor → ℕ
unfolding per_rail_util count_below
count_idle_rails m = if simulated m then 1 else count_below m.congestion_threshold (per_rail_util m)

-- The answers of `predict_congestion_ms`: infinity, or a time in milliseconds.
pub data Forecast : Type 0 where
  infinite : Forecast
  in_ms : Frac → Forecast

-- `max(0.0, threshold - current)`, in bits per second.
unfoldable pub headroom : NetworkMonitor → Frac
headroom m =
    Frac.sub (Frac.mul m.link_speed_bps m.congestion_threshold) (Frac.mul m.total_bps_ema (whole 8))

unfoldable pub predict_congestion_ms : Frac → NetworkMonitor → Forecast
unfolding headroom
predict_congestion_ms flush_bps m =
    let bits = Frac.mul flush_bps (whole 8) in
    if simulated m
    then infinite
    else if not m.io_allowed
    then in_ms (whole 0)
    else if le_frac bits (headroom m)
    then infinite
    else in_ms (
        Frac.mul (Frac.div (headroom m) (max_frac (Frac.sub bits (headroom m)) (whole 1)))
          (whole 1000))
