-- ===== src/Gain/Tests.antt =====
-- The theorems on tempo/service_gain.py at a small scheduler and a small bucket.
use working_tempo.Base.{
  ℕ, ◌+◌, ◌*◌, ◌≤◌, ◌<◌, ◌≡◌, ◌⊎◌, refl, inl, inr, true, false, some, List, [], ◌∷◌, arith,
}
use working_tempo.Base.Frac
use working_tempo.Base.Frac.{frac, whole, LeFrac, lt_frac}
use working_tempo.Gain.{
  GainScheduler, Libraries, new_scheduler, submit_job, recovery_value, compute_gain,
}
use working_tempo.Gain.Jobs.{submit_job_lem, submit_job-no_urgency}
use working_tempo.Gain.Bucket.{TokenBucket, parts, new_bucket, acquire, refill}
use working_tempo.Gain.Pcie.{
  ceiling_of, route_decision, decide, pcie_pressure, predict_flush_bw, eff_headroom, rate_limit,
  pcie_ceiling_bps,
}
use working_tempo.Gain.Pcie.Ceiling.{Fits, route_decision-Fits}
use working_tempo.Gain.Bucket.Grants.{serve, serve-Conserves, acquire-answers}

-- An exponential that is one half everywhere, and a heap in the order of arrival.
abbrev libs : Libraries
libs = record { exp_neg = λ x. frac 1 2; heappush = λ e h. e ∷ h }

abbrev scheduler : GainScheduler
scheduler = record (new_scheduler (whole 1000) 500 100 (frac 1 4)) { congested = true }

submit_job_lem_example :
    let (t, p) = submit_job libs 7 20 5 scheduler in
    (p.job_id ≡ 1)
    × (t.job_counter ≡ p.job_id)
    × (t.jobs_submitted ≡ 1)
    × (t.recompute_recommended + t.jobs_deferred + t.jobs_expedited ≡ 1)
    × (p.deferrable ≡ lt_frac p.gain (frac 60 100))
    × LeFrac p.allocated_bps (whole 1000)
unfolding compute_gain recovery_value
submit_job_lem_example =
    submit_job_lem libs 7 20 5 scheduler (omega arith) (omega arith) (ground arith)

submit_job-no_urgency_run : LeFrac (submit_job libs 7 150 5 scheduler).1.gain (frac 80 100)
unfolding recovery_value
submit_job-no_urgency_run =
    submit_job-no_urgency libs 7 150 5 scheduler (omega arith) refl (omega arith)

-- 10 bytes per second, and room for 2 bytes.
abbrev bucket : TokenBucket
bucket = new_bucket 10 (some 2) 0

-- Two bytes are there; one more comes in 100 ms, and four never fit.
abbrev requests : List (ℕ × ℕ × List (ℕ × ℕ))
requests =
    (2, 500000, (0, 0) ∷ [])
    ∷ (1, 900000, (50000, 50000) ∷ (100000, 100000) ∷ [])
    ∷ (4, 200000, (150000, 150000) ∷ (210000, 210000) ∷ [])
    ∷ []

serve_run : (serve requests bucket).1 ≡ 3
unfolding acquire refill
serve_run = refl

serve-Conserves_example :
    let (u, bytes) = serve requests bucket in
    (u.rate_bps ≡ 10)
    × (u.capacity ≡ 2000000)
    × (u.tokens ≤ u.capacity)
    × (0 ≤ u.last_ts)
    × (bytes * parts + u.tokens + 0 * 10 ≤ 2000000 + u.last_ts * 10)
unfolding acquire refill
serve-Conserves_example = serve-Conserves requests bucket (omega arith) (ground arith)

acquire-answers_run :
    let (t, answer) = acquire 4 200000 ((150000, 150000) ∷ (210000, 210000) ∷ []) bucket in
    (answer ≡ some true) ⊎ ((answer ≡ some false) × (t.tokens < 4 * parts))
acquire-answers_run =
    acquire-answers 4 200000 ((150000, 150000) ∷ (210000, 210000) ∷ []) bucket
      (inr (inl (omega arith)))

route_decision-Fits_example :
    Fits
      (whole 30000000000)
      (ceiling_of (whole 0))
      (route_decision 4000000000 (frac 1 10) (whole 30000000000) 2 (whole 0))
route_decision-Fits_example =
    route_decision-Fits 4000000000 (frac 1 10) (whole 30000000000) 2 (whole 0)

-- 40 GB/s beside 30 GB/s of NCCL: the 34 GB/s of each rail that are left are cut to 85 parts in 100.
limited :
    route_decision 4000000000 (frac 1 10) (whole 30000000000) 2 (whole 0)
    ≡ rate_limit (
        Frac.div
          (Frac.mul (eff_headroom pcie_ceiling_bps (whole 30000000000) 2) (frac 85 100))
          (whole 2))
unfolding route_decision decide pcie_pressure predict_flush_bw eff_headroom
limited = refl
