-- ===== src/Nvlink/Tests.antt =====
-- Tests of tempo/nvlink_router.py, and the theorems at a concrete node.
use working_tempo.Base.{ℕ, ◌≡◌, ◌↔◌, refl, true, [], ◌∷◌, All}
use working_tempo.Base.Frac.{Frac, frac, whole}
use working_tempo.Nvlink.{
  NicStats, NvlinkRouter, new_router, select_egress_gpu, select_from, best, reroute, all_saturated,
}
use working_tempo.Network.Rails.{least}
use working_tempo.Nvlink.Egress.{IsOver, all_saturated-All}

abbrev nic : ℕ → Frac → NicStats
nic gpu ema = record { gpu_idx = gpu; ema_tx_bps = ema; prev_tx = 0; last_poll_ts = 0 }

-- Both NICs are over the threshold, the second by less.
abbrev node : NvlinkRouter
node = record (new_router 2 (frac 80 100) (frac 5 1000)) {
  nic_stats = nic 0 (whole 25000000000) ∷ nic 1 (whole 21000000000) ∷ [];
}

-- The data is sent to a NIC that is saturated as well.
node-egress : (select_egress_gpu 0 node).1 ≡ 1
unfolding select_egress_gpu select_from best reroute least
node-egress = refl

all_saturated-All_run : (all_saturated node ≡ true) ↔ All (IsOver (frac 80 100)) node.nic_stats
all_saturated-All_run = all_saturated-All node refl
