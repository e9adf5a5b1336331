-- ===== src/Phase/Rate.antt =====
-- `get_dynamic_flush_rate` of `PhaseMonitor` (tempo/phase_monitor.py).
use working_tempo.Base.{◌≢◌, ◌⊎◌, ◌≤◌, ◌<◌, ◌≡◌, arith, Bool-cases, inl, inr}
use working_tempo.Base.Frac
use working_tempo.Base.Frac.{
  LeFrac-trans, mul_pos, Frac, whole, LeFrac, min_frac, max_frac, lt_frac, min_frac-le_left,
  min_frac-le_right,
}
use working_tempo.Phase.{
  Monitor, nccl_comm, same_phase, get_dynamic_flush_rate, effective_nccl_bps, available_fraction,
}

sub-le_one : (a b : Frac) → a.num ≤ a.den → (Frac.sub a b).num ≤ (Frac.sub a b).den
sub-le_one a b h = grind arith

mul-le_left : (a b : Frac) → b.num ≤ b.den → LeFrac (Frac.mul a b) a
mul-le_left a b h = grind arith

effective-pos :
    (bw : Frac) (m : Monitor) → 0 < bw.den → 0 < m.ema_nccl.den → 0 < (effective_nccl_bps bw m).den
unfolding effective_nccl_bps
effective-pos bw m p q = ground arith

max_one-pos : (c : Frac) → 0 < c.den → 0 < (max_frac c (whole 1)).num
max_one-pos c p = ground arith

available-le_one :
    (e c g : Frac)
    → 0 < e.den
    → 0 < c.den
    → 0 < g.den
    → let f = available_fraction e c g in (f.num ≤ f.den) × (0 < f.den)
unfolding available_fraction
available-le_one e c g p q r =
    let top = max_frac c (whole 1) in
    let f = Frac.div e top in
    let fd : 0 < f.den = mul_pos e.den top.num p (max_one-pos c q) in
    let rest = Frac.sub (whole 1) f in
    let rd : 0 < rest.den = mul_pos 1 f.den (omega arith) fd in
    (sub-le_one rest g (sub-le_one (whole 1) f (omega arith)), mul_pos rest.den g.den rd r)

min_within :
    (a c f : Frac)
    → 0 < c.den
    → f.num ≤ f.den
    → 0 < f.den
    → LeFrac (min_frac a (Frac.mul c f)) a × LeFrac (min_frac a (Frac.mul c f)) c
min_within a c f p q r =
    let b = Frac.mul c f in
    let low = min_frac-le_right a b in
    (
      min_frac-le_left a b,
      LeFrac-trans (min_frac a b) b c (mul_pos c.den f.den p r) low (mul-le_left c f q),
    )

-- The rate is 0 during an NCCL phase, and never more than what is asked for nor than the ceiling
-- of PCIe.
pub get_dynamic_flush_rate_lem :
    (requested nccl_bw ceiling margin : Frac) (m : Monitor)
    → 0 < nccl_bw.den
    → 0 < ceiling.den
    → 0 < margin.den
    → 0 < m.ema_nccl.den
    → let rate = get_dynamic_flush_rate requested nccl_bw ceiling margin m in
      ((m.phase ≢ nccl_comm) ⊎ (rate ≡ whole 0)) × LeFrac rate requested × LeFrac rate ceiling
unfolding get_dynamic_flush_rate
get_dynamic_flush_rate_lem requested nccl_bw ceiling margin m p q r t =
    let e = effective_nccl_bps nccl_bw m in
    let f = available_fraction e ceiling margin in
    let (le, pos) = available-le_one e ceiling margin (effective-pos nccl_bw m p t) q r in
    let (x, y) = min_within requested ceiling f q le pos in
    elim (Bool-cases (same_phase m.phase nccl_comm)) [
      | inl during ↦ (inr (ground (arith, during)), ground (arith, during), ground (arith, during))
      | inr outside ↦ (inl (λ h. absurd (ground (arith, outside, h))), rw outside x, rw outside y)
    ]
