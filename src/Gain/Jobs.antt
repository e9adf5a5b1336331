-- ===== src/Gain/Jobs.antt =====
-- `submit_job` of `ServiceGainScheduler` (tempo/service_gain.py).
use working_tempo.Base.{
  ℕ, ◌+◌, ◌-◌, ◌*◌, ◌≤◌, ◌<◌, ◌≡◌, inl, inr, max, false, arith, Bool-cases, if◌then◌else◌,
}
use native.Mathlib.Nat.{mul-le-mul_right}
use working_tempo.Base.Frac
use working_tempo.Base.Frac.{
  Frac, frac, whole, lt_frac, min_frac, LeFrac, LeFrac-trans, mul_pos, min_frac-le_left,
  min_frac-le_right, add-LeFrac_left, add-LeFrac_right, mul-LeFrac,
}
use working_tempo.Gain.{
  GainScheduler, Libraries, learning_progress, urgency, recovery_value, compute_gain, is_milestone,
  register_job, is_deferrable, count_job, submit_job,
}

module _ (libs : Libraries) where
  -- A job is registered before its gain is computed, so that no step of its budget is used.
  urgency-registered :
      (step : ℕ) (s : GainScheduler)
      → 0 < s.slo_deadline_steps
      → (urgency step (register_job libs step s)).num ≡ 0
  unfolding urgency
  urgency-registered step s p = let e : step - step ≡ 0 = omega arith in rw e (omega (arith, p))

  urgency-pos : (step : ℕ) (s : GainScheduler) → 0 < s.slo_deadline_steps → 0 < (urgency step s).den
  unfolding urgency
  urgency-pos step s p = omega (arith, p)

  product-le : (a b : Frac) → b.num ≤ b.den → LeFrac (Frac.mul a b) a
  product-le a b h = grind arith

  compute_gain-le_one : (step : ℕ) (s : GainScheduler) → LeFrac (compute_gain libs step s) (whole 1)
  unfolding compute_gain
  compute_gain-le_one step s = elim (Bool-cases (is_milestone step s)) [
    | inl milestone ↦ rw milestone (omega arith)
    | inr other ↦ rw other (search min_frac-le_left)
  ]

  scaled-le : (a b : Frac) → LeFrac b (whole 1) → LeFrac (Frac.mul a b) a
  scaled-le a b h = product-le a b (omega (arith, h))

  -- Each job gets a new number and is counted once: as recommended for recomputation, as deferred or
  -- as expedited. Its bandwidth is never more than the base, and it may be deferred exactly where its
  -- gain is below 0.6 under congestion and below 0.3 without.
  pub submit_job_lem :
      (job step now : ℕ) (s : GainScheduler)
      → s.congestion_bw_factor.num ≤ s.congestion_bw_factor.den
      → 0 < s.base_bps.den
      → 0 < (compute_gain libs step (register_job libs step s)).den
      → let (t, p) = submit_job libs job step now s in
        (p.job_id ≡ s.job_counter + 1)
        × (t.job_counter ≡ p.job_id)
        × (t.jobs_submitted ≡ s.jobs_submitted + 1)
        × (t.recompute_recommended + t.jobs_deferred + t.jobs_expedited
            ≡ s.recompute_recommended + s.jobs_deferred + s.jobs_expedited + 1)
        × (p.deferrable ≡ lt_frac p.gain (if s.congested then frac 60 100 else frac 30 100))
        × LeFrac p.allocated_bps s.base_bps
  unfolding submit_job count_job is_deferrable
  submit_job_lem job step now s f p q =
      let g = compute_gain libs step (register_job libs step s) in
      let full = Frac.mul s.base_bps g in
      let one : LeFrac full s.base_bps =
        scaled-le s.base_bps g (compute_gain-le_one step (register_job libs step s)) in
      let cut : LeFrac (Frac.mul full s.congestion_bw_factor) s.base_bps =
        LeFrac-trans (Frac.mul full s.congestion_bw_factor) full s.base_bps
          (mul_pos s.base_bps.den g.den p q) (product-le full s.congestion_bw_factor f) one in
      (
        ground arith,
        ground arith,
        ground arith,
        ground arith,
        ground arith,
        ground (arith, one, cut),
      )

  weighted-le :
      (a b c : ℕ) (l r u : Frac)
      → l.num ≤ l.den
      → r.num ≤ r.den
      → u.num ≡ 0
      → LeFrac
          (Frac.add
            (Frac.add (Frac.mul (frac a 100) l) (Frac.mul (frac b 100) r))
            (Frac.mul (frac c 100) u))
          (frac (a + b) 100)
  weighted-le a b c l r u p q z =
      let x = mul-le-mul_right (a * 100 * r.den * 100 * u.den * 100) p in
      let y = mul-le-mul_right (b * 100 * l.den * 100 * u.den * 100) q in rw z (omega (arith, x, y))

  learning-le :
      (step : ℕ) (s : GainScheduler)
      → (learning_progress step s).num ≤ (learning_progress step s).den
  unfolding learning_progress
  learning-le step s =
      let cut =
        min_frac-le_left (whole 1) (frac (step - s.last_committed_step) (max 1 s.horizon)) in
      omega (arith, cut)

  learning-pos : (step : ℕ) (s : GainScheduler) → 0 < (learning_progress step s).den
  unfolding learning_progress
  learning-pos step s = ground arith

  recovery-le :
      (step : ℕ) (s : GainScheduler)
      → (recovery_value libs step s).num ≤ (recovery_value libs step s).den
  unfolding recovery_value
  recovery-le step s = omega arith

  -- A job that is submitted at a step that is no milestone has a gain of 0.80 at most: the weight of
  -- the urgency is never used, since the job is registered before its gain is computed.
  pub submit_job-no_urgency :
      (job step now : ℕ) (s : GainScheduler)
      → 0 < s.slo_deadline_steps
      → is_milestone step s ≡ false
      → 0 < (recovery_value libs step (register_job libs step s)).den
      → LeFrac (submit_job libs job step now s).1.gain (frac 80 100)
  unfolding submit_job compute_gain
  submit_job-no_urgency job step now s p other q =
      let t : GainScheduler = register_job libs step s in
      let l = learning_progress step t in
      let r = recovery_value libs step t in
      let u = urgency step t in
      let a = Frac.add (Frac.mul (frac 45 100) l) (Frac.mul (frac 35 100) r) in
      let x = Frac.add a (Frac.mul (frac 20 100) u) in
      let le =
        weighted-le 45 35 20 l r u (learning-le step t) (recovery-le step t)
          (urgency-registered step s p) in
      let ad : 0 < a.den =
        mul_pos (100 * l.den) (100 * r.den) (mul_pos 100 l.den (omega arith) (learning-pos step t))
          (mul_pos 100 r.den (omega arith) q) in
      let xd : 0 < x.den =
        mul_pos a.den (100 * u.den) ad (mul_pos 100 u.den (omega arith) (urgency-pos step t p)) in
      rw other
        (LeFrac-trans (min_frac (whole 1) x) x (frac 80 100) xd (min_frac-le_right (whole 1) x) le)
