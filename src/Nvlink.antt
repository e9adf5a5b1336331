-- ===== src/Nvlink.antt =====
-- `NVLinkRouter` of tempo/nvlink_router.py. The NIC of a GPU has its index; what sysfs answers and the
-- time, in microseconds, are arguments of the poll; rates are exact fractions, in bytes per second.
pub mod Egress
mod Tests
use working_tempo.Base.{
  ℕ, ◌+◌, ◌-◌, ◌*◌, max, Bool, true, false, not, Option, none, some, List, [], ◌∷◌, map, ◌==◌,
  if◌then◌else◌, ltb, leb, length, get_elem?, set,
}
use working_tempo.Base.Frac
use working_tempo.Base.Frac.{Frac, frac, whole, lt_frac, le_frac, min_frac, max_frac}
use working_tempo.Network.Rails.{Rail, least}

-- `_LINK_BPS` and `_NVLINK_PAIR_BPS`
abbrev pub link_bps : Frac
link_bps = whole 25000000000

abbrev pub nvlink_pair_bps : Frac
nvlink_pair_bps = whole 150000000000

pub record NicStats : Type 0 where
  pub gpu_idx : ℕ
  pub ema_tx_bps : Frac
  pub prev_tx : ℕ
  pub last_poll_ts : ℕ

pub record NvlinkRouter : Type 0 where
  pub n_gpus : ℕ
  pub saturation_threshold : Frac
  pub poll_interval : Frac
  pub nic_stats : List NicStats
  pub relays_done : ℕ
  pub bytes_relayed : ℕ
  pub reroutes : ℕ

abbrev pub new_nics : ℕ → ℕ → List NicStats
new_nics i Prim.Native.Nat.zero = []
new_nics i (Prim.Native.Nat.suc n) =
    record { gpu_idx = i; ema_tx_bps = whole 0; prev_tx = 0; last_poll_ts = 0 } ∷ new_nics (i + 1) n

-- `NVLinkRouter(n_gpus, None, threshold, interval)`
abbrev pub new_router : ℕ → Frac → Frac → NvlinkRouter
new_router n_gpus threshold interval = record {
  n_gpus = n_gpus;
  saturation_threshold = threshold;
  poll_interval = interval;
  nic_stats = new_nics 0 n_gpus;
  relays_done = 0;
  bytes_relayed = 0;
  reroutes = 0;
}

-- `util_fraction` of a smoothed rate.
abbrev pub util_of : Frac → Frac
util_of ema = min_frac (whole 1) (Frac.div ema link_bps)

abbrev pub is_idle : NicStats → Bool
is_idle s = lt_frac s.ema_tx_bps (Frac.mul link_bps (frac 10 100))

-- `_EMA_ALPHA * new + (1 - _EMA_ALPHA) * old`
abbrev pub blend : Frac → Frac → Frac
blend new old = Frac.add (Frac.mul (frac 3 10) new) (Frac.mul (frac 7 10) old)

-- `_read_nic`: nothing where the counter cannot be read, and no rate before the first reading.
unfoldable pub read_nic : ℕ → Option ℕ → NicStats → NicStats
read_nic now none s = s
read_nic now (some tx) s =
    let inst = frac ((tx - s.prev_tx) * 1000000) (max 1 (now - s.last_poll_ts)) in
    record s {
      ema_tx_bps = if ltb 0 s.last_poll_ts then blend inst s.ema_tx_bps else s.ema_tx_bps;
      prev_tx = tx;
      last_poll_ts = now;
    }

-- A round of `_poll_loop`, and the readings of `start`.
unfoldable pub poll : ℕ → (ℕ → Option ℕ) → NvlinkRouter → NvlinkRouter
unfolding read_nic
poll now read r = record r {
  nic_stats = map (λ (s : NicStats). read_nic now (read s.gpu_idx) s) r.nic_stats;
}

-- The NICs with their rates, for `sorted(..., key=...)`.
abbrev pub rates : List NicStats → List Rail
rates nics = map (λ (s : NicStats). (s.gpu_idx, s.ema_tx_bps)) nics

-- `ranked[0]`: the sort is stable, so this is the first of the least.
unfoldable pub best : List NicStats → Option Rail
unfolding least
best [] = none
best (s ∷ nics) = some (least (s.gpu_idx, s.ema_tx_bps) (rates nics))

-- Is this NIC better than the primary one by more than 0.05?
abbrev pub is_better : Frac → Frac → Bool
is_better ema primary = lt_frac (util_of ema) (Frac.sub (util_of primary) (frac 5 100))

unfoldable pub reroute : ℕ → Frac → Option Rail → NvlinkRouter → NvlinkRouter × ℕ
reroute primary_gpu ema none r = (r, primary_gpu)
reroute primary_gpu ema (some nic) r =
    if is_better nic.1 ema
    then (record r { reroutes = r.reroutes + 1 }, nic.0)
    else (r, primary_gpu)

unfoldable pub select_from : ℕ → Option NicStats → NvlinkRouter → NvlinkRouter × ℕ
unfolding best reroute
select_from primary_gpu none r = (r, primary_gpu)
select_from primary_gpu (some primary) r =
    if le_frac (util_of primary.ema_tx_bps) r.saturation_threshold
    then (r, primary_gpu)
    else reroute primary_gpu primary.ema_tx_bps (best r.nic_stats) r

unfoldable pub select_egress_gpu : ℕ → NvlinkRouter → NvlinkRouter × ℕ
unfolding select_from
select_egress_gpu primary_gpu r = select_from primary_gpu (get_elem? r.nic_stats primary_gpu) r

abbrev pub need_nvlink_relay : ℕ → ℕ → Bool
need_nvlink_relay src egress = not (src == egress)

-- `nvlink_transfer`, for the counts; the copy is torch's, and without it nothing is done.
unfoldable pub nvlink_transfer : Bool → ℕ → NvlinkRouter → NvlinkRouter
nvlink_transfer torch n_bytes r =
    if torch
    then record r { relays_done = r.relays_done + 1; bytes_relayed = r.bytes_relayed + n_bytes }
    else r

unfoldable pub record_flush_bytes : ℕ → ℕ → NvlinkRouter → NvlinkRouter
record_flush_bytes gpu n_bytes r = elim (get_elem? r.nic_stats gpu) [
  | none ↦ r
  | some s ↦
      let estimated = Frac.div (whole n_bytes) (max_frac r.poll_interval (frac 1 1000000)) in
      record r {
        nic_stats = set r.nic_stats gpu (record s { ema_tx_bps = blend estimated s.ema_tx_bps });
      }
]

unfoldable pub get_nic_util : ℕ → NvlinkRouter → Frac
get_nic_util gpu r = elim (get_elem? r.nic_stats gpu) [
  | none ↦ whole 0
  | some s ↦ util_of s.ema_tx_bps
]

-- `s.util_fraction > self.saturation_threshold`, over the NICs
unfoldable pub saturated : Frac → List NicStats → ℕ
saturated threshold [] = 0
saturated threshold (s ∷ nics) =
    (if lt_frac threshold (util_of s.ema_tx_bps) then 1 else 0) + saturated threshold nics

abbrev pub count_saturated_nics : NvlinkRouter → ℕ
count_saturated_nics r = saturated r.saturation_threshold r.nic_stats

abbrev pub all_saturated : NvlinkRouter → Bool
all_saturated r = leb r.n_gpus (count_saturated_nics r)

unfoldable pub estimate_relay_overhead_ms : ℕ → ℕ → ℕ → Frac
estimate_relay_overhead_ms n_bytes src dst =
    if src == dst then whole 0 else Frac.mul (Frac.div (whole n_bytes) nvlink_pair_bps) (whole 1000)

-- The least of the utilisations.
abbrev pub least_util : List NicStats → Frac
least_util [] = whole 1
least_util (s ∷ nics) = min_frac (least_util nics) (util_of s.ema_tx_bps)

-- `n_bytes / (_LINK_BPS * max(0.01, 1.0 - util)) * 1000.0`
abbrev pub link_ms : ℕ → Frac → Frac
link_ms n_bytes util =
    let available = Frac.mul link_bps (max_frac (frac 1 100) (Frac.sub (whole 1) util)) in
    Frac.mul (Frac.div (whole n_bytes) available) (whole 1000)

-- The wait behind the primary NIC, and what the reroute costs: the source subtracts the second, and
-- answers 0 where the primary NIC is not saturated. It asks for the egress, which counts a reroute.
unfoldable pub estimate_reroute_gain_ms : ℕ → ℕ → NvlinkRouter → NvlinkRouter × Frac × Frac
unfolding get_nic_util select_egress_gpu estimate_relay_overhead_ms
estimate_reroute_gain_ms n_bytes primary_gpu r =
    let util = get_nic_util primary_gpu r in
    if le_frac util r.saturation_threshold
    then (r, whole 0, whole 0)
    else let (asked, egress) = select_egress_gpu primary_gpu r in
      (
        asked,
        link_ms n_bytes util,
        Frac.add (link_ms n_bytes (least_util r.nic_stats))
            (estimate_relay_overhead_ms n_bytes primary_gpu egress),
      )
