-- ===== src/Gain/Pcie/Ceiling.antt =====
-- The decisions of `route_decision` (tempo/service_gain.py) and the ceiling of PCIe.
use working_tempo.Base.{
  ℕ, ◌+◌, ◌-◌, ◌*◌, ◌≤◌, ◌≡◌, inl, inr, max, true, ◌&&◌, arith, Bool-cases, ltb, leb→le, subst,
}
use working_tempo.Base.Frac
use working_tempo.Base.Frac.{
  Frac, frac, whole, lt_frac, le_frac, LeFrac, is_zero, max_frac, min_frac, le-max_frac_left,
}
use working_tempo.Gain.Pcie.{
  Decision, proceed, rate_limit, micro_delay, defer, predict_flush_bw, ceiling_of, pcie_pressure,
  eff_headroom, delay_ms, decide, route_decision,
}

-- A rate that is granted fits beside NCCL under the ceiling, and a delay is between 1 and 50 ms.
abbrev pub Fits : Frac → Frac → Decision → Type 0
Fits nccl ceiling (proceed rate) = LeFrac (Frac.add rate nccl) ceiling
Fits nccl ceiling (rate_limit rate) = LeFrac (Frac.add rate nccl) ceiling
Fits nccl ceiling (micro_delay ms) = LeFrac (whole 1) ms × LeFrac ms (whole 50)
Fits nccl ceiling defer = Unit

-- A pressure below 0.9 leaves the sum below the ceiling.
low-fits : (x c : Frac) → lt_frac (Frac.div x c) (frac 90 100) ≡ true → LeFrac x c
low-fits x c h = ground (arith, h)

-- 85 parts in 100 of what is left, and what is taken.
share-fits :
    (h m nn nd cn cd : ℕ)
    → h + nn * cd ≡ cn * nd
    → (h * m * 85 * 1 * nd + nn * (cd * nd * 1 * 100 * m)) * cd ≤ cn * (cd * nd * 1 * 100 * m * nd)
share-fits h m nn nd cn cd e =
    let f : (h + nn * cd) * (m * cd * 100 * nd) ≡ cn * nd * (m * cd * 100 * nd) = rw e in
    omega (arith, f)

ceiling_same : (c : Frac) → ceiling_of (ceiling_of c) ≡ ceiling_of c
ceiling_same c = ground arith

limit-fits :
    (c nccl : Frac) (rails : ℕ)
    → le_frac nccl c ≡ true
    → LeFrac
        (Frac.add
          (Frac.div (Frac.mul (eff_headroom c nccl rails) (frac 85 100)) (whole (max 1 rails)))
          nccl)
        c
unfolding eff_headroom
limit-fits c nccl rails h =
    let le : nccl.num * c.den ≤ c.num * nccl.den = leb→le _ _ h in
    share-fits (c.num * nccl.den - nccl.num * c.den) (max 1 rails) nccl.num nccl.den c.num c.den
      (omega (arith, le))

delay-fits :
    (flush nccl c window : Frac)
    → LeFrac (whole 1) (delay_ms flush nccl c window)
      × LeFrac (delay_ms flush nccl c window) (whole 50)
unfolding delay_ms
delay-fits flush nccl c window = (search le-max_frac_left, ground arith)

decide-Fits :
    (flush window nccl : Frac) (rails : ℕ) (c : Frac)
    → ceiling_of c ≡ c
    → Fits nccl c (decide flush window nccl rails c)
unfolding decide pcie_pressure
decide-Fits flush window nccl rails c same =
    elim (Bool-cases (lt_frac (pcie_pressure flush nccl c) (frac 90 100))) [
      | inl low ↦
          rw (low, decide)
            (low-fits (Frac.add flush nccl) c (
              subst (λ (k : Frac). lt_frac (Frac.div (Frac.add flush nccl) k) (frac 90 100) ≡ true)
                same low))
      | inr more ↦
          elim (Bool-cases
            (ltb 0 rails && (le_frac nccl c && le_frac flush (eff_headroom c nccl rails)))) [
              | inl room ↦ rw (more, room, decide) (limit-fits c nccl rails (ground (arith, room)))
              | inr full ↦ elim (Bool-cases (lt_frac (pcie_pressure flush nccl c) (frac 150 100))) [
                | inl some_time ↦
                    rw (more, full, some_time, decide) (delay-fits flush nccl c window)
                | inr severe ↦ rw (more, full, severe, decide) tt
              ]
            ]
    ]

-- Whatever is asked, a rate that `route_decision` grants fits, with the bandwidth of NCCL, under the
-- ceiling that holds, and a micro-delay is between 1 and 50 ms.
pub route_decision-Fits :
    (kv_bytes : ℕ) (window nccl : Frac) (rails : ℕ) (ceiling : Frac)
    → Fits nccl (ceiling_of ceiling) (route_decision kv_bytes window nccl rails ceiling)
unfolding route_decision
route_decision-Fits kv_bytes window nccl rails ceiling =
    decide-Fits (predict_flush_bw kv_bytes window) window nccl rails (ceiling_of ceiling)
      (ceiling_same ceiling)
