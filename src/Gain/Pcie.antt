-- ===== src/Gain/Pcie.antt =====
-- `PCIePressurePredictor` of tempo/service_gain.py, on exact fractions of bytes per second.
pub mod Ceiling
use working_tempo.Base.{ℕ, ◌*◌, max, Bool, true, false, not, ◌&&◌, if◌then◌else◌, ltb}
use working_tempo.Base.Frac
use working_tempo.Base.Frac.{Frac, frac, whole, lt_frac, le_frac, min_frac, max_frac, is_zero}

-- The pairs of an action and its parameter.
pub data Decision : Type 0 where
  proceed rate_limit micro_delay : Frac → Decision
  defer : Decision

-- `PCIE_CEILING_BPS`
abbrev pub pcie_ceiling_bps : Frac
pcie_ceiling_bps = whole 64000000000

unfoldable pub predict_kv_bytes : ℕ → ℕ → ℕ → ℕ → ℕ → ℕ → ℕ
predict_kv_bytes batch_size seq_len n_layers n_heads head_dim dtype_bytes =
    2 * n_layers * n_heads * head_dim * seq_len * batch_size * dtype_bytes

unfoldable pub predict_flush_bw : ℕ → Frac → Frac
predict_flush_bw kv_bytes window_s =
    Frac.div (whole kv_bytes) (max_frac window_s (frac 1 1000000000))

-- The caller's ceiling, or the default for 0.
abbrev pub ceiling_of : Frac → Frac
ceiling_of ceiling = if is_zero ceiling then pcie_ceiling_bps else ceiling

unfoldable pub pcie_pressure : Frac → Frac → Frac → Frac
pcie_pressure flush nccl ceiling = Frac.div (Frac.add flush nccl) (ceiling_of ceiling)

-- `ceiling - nccl_bw_bps` for each idle rail; it is used where it is not below 0.
unfoldable pub eff_headroom : Frac → Frac → ℕ → Frac
eff_headroom ceiling nccl rails = Frac.mul (Frac.sub ceiling nccl) (whole (max 1 rails))

-- `max(1.0, min(50.0, deficit_bps / max(decay_rate, 1.0)))`: a deficit below 0 gives 1, as 0 does.
unfoldable pub delay_ms : Frac → Frac → Frac → Frac → Frac
delay_ms flush nccl ceiling window_s =
    let deficit = Frac.sub (Frac.add flush nccl) ceiling in
    let decay = Frac.div nccl (max_frac (Frac.mul window_s (whole 1000)) (whole 1)) in
    max_frac (whole 1) (min_frac (whole 50) (Frac.div deficit (max_frac decay (whole 1))))

-- `route_decision`, for the bandwidth of the flush. A flush fits in a headroom that is not negative.
unfoldable pub decide : Frac → Frac → Frac → ℕ → Frac → Decision
unfolding pcie_pressure eff_headroom delay_ms
decide flush window_s nccl rails ceiling =
    if lt_frac (pcie_pressure flush nccl ceiling) (frac 90 100)
    then proceed flush
    else if ltb 0 rails && (le_frac nccl ceiling && le_frac flush (eff_headroom ceiling nccl rails))
    then rate_limit
        (Frac.div (Frac.mul (eff_headroom ceiling nccl rails) (frac 85 100)) (whole (max 1 rails)))
    else if lt_frac (pcie_pressure flush nccl ceiling) (frac 150 100)
    then micro_delay (delay_ms flush nccl ceiling window_s)
    else defer

unfoldable pub route_decision : ℕ → Frac → Frac → ℕ → Frac → Decision
unfolding decide predict_flush_bw
route_decision kv_bytes window_s nccl rails ceiling =
    decide (predict_flush_bw kv_bytes window_s) window_s nccl rails (ceiling_of ceiling)
