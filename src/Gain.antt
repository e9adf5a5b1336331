-- ===== src/Gain.antt =====
-- `ServiceGainScheduler` of tempo/service_gain.py. `math.exp` and `heapq.heappush` are parameters, and
-- the time of the clock is an argument. The steps that divide are meant for an SLO and an interval
-- that are not 0.
pub mod Bucket
pub mod Pcie
pub mod Jobs
mod Tests
use working_tempo.Base.{
  ℕ, ◌+◌, ◌-◌, ◌*◌, ◌%◌, max, Bool, true, false, not, ◌&&◌, List, [], ◌∷◌, if◌then◌else◌, ltb, ◌==◌,
}
use working_tempo.Base.Frac
use working_tempo.Base.Frac.{Frac, frac, whole, lt_frac, min_frac}

-- `_JobEntry`, by the gain and not by its negation; a job is named by a number.
pub record JobEntry : Type 0 where
  pub gain : Frac
  pub enqueue_time : ℕ
  pub job_id : ℕ
  pub flush_job : ℕ

pub record FlushPriority : Type 0 where
  pub job_id : ℕ
  pub gain : Frac
  pub deferrable : Bool
  pub allocated_bps : Frac
  pub recompute_fallback : Bool

pub record GainScheduler : Type 0 where
  pub base_bps : Frac
  pub milestone_interval : ℕ
  pub slo_deadline_steps : ℕ
  pub congestion_bw_factor : Frac
  pub job_counter : ℕ
  pub heap : List JobEntry
  pub last_committed_step : ℕ
  pub last_ckpt_step : ℕ
  pub current_step : ℕ
  pub horizon : ℕ
  pub congested : Bool
  pub jobs_submitted : ℕ
  pub jobs_deferred : ℕ
  pub jobs_expedited : ℕ
  pub recompute_recommended : ℕ

-- `e ** -x`, and the push on a heap.
pub record Libraries : Type 0 where
  pub exp_neg : Frac → Frac
  pub heappush : JobEntry → List JobEntry → List JobEntry

-- `ServiceGainScheduler(...)`
abbrev pub new_scheduler : Frac → ℕ → ℕ → Frac → GainScheduler
new_scheduler base interval slo factor = record {
  base_bps = base;
  milestone_interval = interval;
  slo_deadline_steps = slo;
  congestion_bw_factor = factor;
  job_counter = 0;
  heap = [];
  last_committed_step = 0;
  last_ckpt_step = 0;
  current_step = 0;
  horizon = 1000;
  congested = false;
  jobs_submitted = 0;
  jobs_deferred = 0;
  jobs_expedited = 0;
  recompute_recommended = 0;
}

unfoldable pub update_step : ℕ → GainScheduler → GainScheduler
update_step step s = record s { current_step = step }

unfoldable pub mark_committed : ℕ → GainScheduler → GainScheduler
mark_committed step s = record s { last_committed_step = max s.last_committed_step step }

unfoldable pub set_congested : Bool → GainScheduler → GainScheduler
set_congested flag s = record s { congested = flag }

-- `min(1.0, steps_since_commit / max(1, self._horizon))`
unfoldable pub learning_progress : ℕ → GainScheduler → Frac
learning_progress step s =
    min_frac (whole 1) (frac (step - s.last_committed_step) (max 1 s.horizon))

-- `max(0.0, 1.0 - remaining_budget / self.slo_deadline_steps)`
unfoldable pub urgency : ℕ → GainScheduler → Frac
urgency step s =
    Frac.sub (whole 1)
      (frac (max 1 (s.slo_deadline_steps - (step - s.last_ckpt_step))) s.slo_deadline_steps)

abbrev pub is_milestone : ℕ → GainScheduler → Bool
is_milestone step s = ltb 0 step && (step % s.milestone_interval == 0)

module _ (libs : Libraries) where
  -- `1.0 - math.exp(-_LAMBDA * steps_since_commit)`
  unfoldable pub recovery_value : ℕ → GainScheduler → Frac
  recovery_value step s =
      Frac.sub (whole 1) (libs.exp_neg (frac (step - s.last_committed_step) 100))

  -- The sum is never below 0, so `max(0.0, gain)` is the sum.
  unfoldable pub compute_gain : ℕ → GainScheduler → Frac
  unfolding learning_progress recovery_value urgency
  compute_gain step s =
      if is_milestone step s
      then frac 95 100
      else min_frac (whole 1) (
          Frac.add
            (Frac.add (Frac.mul (frac 45 100) (learning_progress step s))
              (Frac.mul (frac 35 100) (recovery_value step s)))
            (Frac.mul (frac 20 100) (urgency step s)))

  -- `submit_job`, in its three parts: the job is registered, its gain computed, and then counted.
  abbrev pub register_job : ℕ → GainScheduler → GainScheduler
  register_job step s = record s {
    last_ckpt_step = step;
    job_counter = s.job_counter + 1;
    jobs_submitted = s.jobs_submitted + 1;
  }

  unfoldable pub is_deferrable : Bool → Frac → Bool
  is_deferrable congested gain =
      if congested && lt_frac gain (frac 60 100)
      then true
      else lt_frac gain (frac 30 100) && not congested

  unfoldable pub count_job : Bool → Bool → GainScheduler → GainScheduler
  count_job recompute deferrable s =
      if recompute
      then record s { recompute_recommended = s.recompute_recommended + 1 }
      else if deferrable
      then record s { jobs_deferred = s.jobs_deferred + 1 }
      else record s { jobs_expedited = s.jobs_expedited + 1 }

  unfoldable pub submit_job : ℕ → ℕ → ℕ → GainScheduler → GainScheduler × FlushPriority
  unfolding compute_gain is_deferrable count_job
  submit_job job step now s =
      let registered = register_job step s in
      let gain = compute_gain step registered in
      let deferrable = is_deferrable s.congested gain in
      let recompute = s.congested && lt_frac gain (frac 15 100) in
      let entry : JobEntry = record {
        gain = gain;
        enqueue_time = now;
        job_id = registered.job_counter;
        flush_job = job;
      } in
      let full = Frac.mul s.base_bps gain in
      (
        count_job recompute deferrable (record registered { heap = libs.heappush entry s.heap }),
        record {
          job_id = registered.job_counter;
          gain = gain;
          deferrable = deferrable;
          allocated_bps =
              if s.congested && deferrable then Frac.mul full s.congestion_bw_factor else full;
          recompute_fallback = recompute;
        },
      )
