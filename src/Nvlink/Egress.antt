-- ===== src/Nvlink/Egress.antt =====
-- Which NIC `NVLinkRouter` (tempo/nvlink_router.py) selects, and what the counts are.
use working_tempo.Base.{
  ℕ, ◌+◌, ◌≤◌, ◌≡◌, refl, Bool, true, false, none, some, List, [], ◌∷◌, arith, All, if_true, length,
  get_elem?, if◌then◌else◌, leb→le, le→leb, ◌↔◌,
}
use working_tempo.Base.Frac.{Frac, lt_frac, le_frac}
use working_tempo.Network.Rails.{Rail}
use working_tempo.Network.Choice.{OneOf, IsLeast}
use working_tempo.Nvlink.{
  NicStats, NvlinkRouter, util_of, rates, is_better, saturated, count_saturated_nics, all_saturated,
}

-- The egress that is selected for a GPU: its own, and nothing is counted, or that of the NIC with the
-- least rate, which is less used by more than 0.05 than the own one, itself over the threshold.
pub data IsEgress (primary_gpu : ℕ) (r : NvlinkRouter) (p : NvlinkRouter × ℕ) : Type 0 where
  unknown :
      get_elem? r.nic_stats primary_gpu ≡ none → p ≡ (r, primary_gpu) → IsEgress primary_gpu r p
  free :
      (own : NicStats)
      → get_elem? r.nic_stats primary_gpu ≡ some own
      → le_frac (util_of own.ema_tx_bps) r.saturation_threshold ≡ true
      → p ≡ (r, primary_gpu)
      → IsEgress primary_gpu r p
  no_better :
      (own : NicStats) (nic : Rail)
      → get_elem? r.nic_stats primary_gpu ≡ some own
      → OneOf nic (rates r.nic_stats)
      → IsLeast nic (rates r.nic_stats)
      → is_better nic.1 own.ema_tx_bps ≡ false
      → p ≡ (r, primary_gpu)
      → IsEgress primary_gpu r p
  rerouted :
      (own : NicStats) (nic : Rail)
      → get_elem? r.nic_stats primary_gpu ≡ some own
      → le_frac (util_of own.ema_tx_bps) r.saturation_threshold ≡ false
      → OneOf nic (rates r.nic_stats)
      → IsLeast nic (rates r.nic_stats)
      → is_better nic.1 own.ema_tx_bps ≡ true
      → p ≡ (record r { reroutes = r.reroutes + 1 }, nic.0)
      → IsEgress primary_gpu r p

saturated-le : (threshold : Frac) (nics : List NicStats) → saturated threshold nics ≤ length nics
unfolding saturated
saturated-le threshold [] = omega arith
saturated-le threshold (s ∷ nics) = ground (arith, saturated-le threshold nics)

count_step : (b : Bool) (n k : ℕ) → n + 1 ≤ (if b then 1 else 0) + k → k ≤ n → (b ≡ true) × (n ≤ k)
count_step true n k h le = (refl, omega arith)
count_step false n k h le = absurd (omega arith)

-- This NIC is over the threshold.
abbrev pub IsOver : Frac → NicStats → Type 0
IsOver threshold s = lt_frac threshold (util_of s.ema_tx_bps) ≡ true

saturated-All :
    (threshold : Frac) (nics : List NicStats)
    → length nics ≤ saturated threshold nics
    → All (IsOver threshold) nics
unfolding saturated
saturated-All threshold [] h = tt
saturated-All threshold (s ∷ nics) h =
    let test = lt_frac threshold (util_of s.ema_tx_bps) in
    let (over, more) =
      count_step test (length nics) (saturated threshold nics) (omega (arith, h))
        (saturated-le threshold nics) in
    (over, saturated-All threshold nics more)

All-saturated :
    (threshold : Frac) (nics : List NicStats)
    → All (IsOver threshold) nics
    → saturated threshold nics ≡ length nics
unfolding saturated
All-saturated threshold [] h = refl
All-saturated threshold (s ∷ nics) h =
    let one = if_true {A = ℕ} (lt_frac threshold (util_of s.ema_tx_bps)) 1 0 h.0 in
    omega (arith, one, All-saturated threshold nics h.1)

-- With a NIC for each GPU, all of them count as saturated exactly where each is over the threshold.
pub all_saturated-All :
    (r : NvlinkRouter)
    → r.n_gpus ≡ length r.nic_stats
    → (all_saturated r ≡ true) ↔ All (IsOver r.saturation_threshold) r.nic_stats
all_saturated-All r n = (
  λ h.
      saturated-All r.saturation_threshold r.nic_stats
        (omega (arith, leb→le r.n_gpus (count_saturated_nics r) h, n)),
  λ h.
      le→leb r.n_gpus (count_saturated_nics r)
        (omega (arith, All-saturated r.saturation_threshold r.nic_stats h, n)),
)
