-- ===== src/Phase.antt =====
-- `PhaseMonitor` of tempo/phase_monitor.py. Times are the ticks of the monotone clock, in
-- microseconds, and the clock is an argument of each transition; a float is the exact fraction that
-- it stands for. The callbacks are recorded where they are called.
pub mod Gate
pub mod Timing
pub mod Rate
mod Tests
use working_tempo.Base.{
  ℕ, zero, suc, ◌+◌, ◌-◌, ◌*◌, Bool, true, false, not, ◌&&◌, Option, none, some, List, [], ◌∷◌,
  ◌++◌, if◌then◌else◌, ltb, length, sum, drop,
}
use working_tempo.Base.Frac
use working_tempo.Base.Frac.{Frac, frac, whole, lt_frac, le_frac, min_frac, max_frac, is_zero}

pub data TrainingPhase : Type 0 where
  idle compute nccl_comm checkpoint : TrainingPhase

abbrev pub same_phase : TrainingPhase → TrainingPhase → Bool
same_phase idle idle = true
same_phase compute compute = true
same_phase nccl_comm nccl_comm = true
same_phase checkpoint checkpoint = true
same_phase _ _ = false

pub data Callback : Type 0 where
  nccl_start nccl_end : Callback

pub record Monitor : Type 0 where
  pub phase : TrainingPhase
  pub nccl_enter_time : ℕ
  pub nccl_total : ℕ
  pub compute_enter_time : ℕ
  pub compute_total : ℕ
  pub step : ℕ
  pub nccl_durations : List ℕ
  pub ema_nccl : Frac
  pub io_allowed : Bool
  pub on_nccl_start : Bool
  pub on_nccl_end : Bool
  pub called : List Callback

-- `self._nccl_window_size`
abbrev pub nccl_window_size : ℕ
nccl_window_size = 16

-- `PhaseMonitor()`
abbrev pub init : Monitor
init = record {
  phase = idle;
  nccl_enter_time = 0;
  nccl_total = 0;
  compute_enter_time = 0;
  compute_total = 0;
  step = 0;
  nccl_durations = [];
  ema_nccl = frac 0 1;
  io_allowed = true;
  on_nccl_start = false;
  on_nccl_end = false;
  called = [];
}

-- `append`, then `pop(0)` if the buffer is longer than the window.
unfoldable pub push_duration : ℕ → List ℕ → List ℕ
push_duration elapsed window =
    let longer = window ++ elapsed ∷ [] in
    if ltb nccl_window_size (length longer) then drop 1 longer else longer

-- The smoothed estimate: the first sample as it is, then 0.30 · sample + 0.70 · estimate.
unfoldable pub smooth : ℕ → Frac → Frac
smooth elapsed ema =
    if is_zero ema
    then whole elapsed
    else Frac.add (Frac.mul (frac 30 100) (whole elapsed)) (Frac.mul (frac 70 100) ema)

-- The parts of `set_phase`, in their order.
unfoldable pub leave_compute : ℕ → Monitor → Monitor
leave_compute now m =
    if same_phase m.phase compute
    then record m { compute_total = m.compute_total + (now - m.compute_enter_time) }
    else m

unfoldable pub leave_nccl : ℕ → Monitor → Monitor
leave_nccl now m =
    if same_phase m.phase nccl_comm
    then record m {
      nccl_total = m.nccl_total + (now - m.nccl_enter_time);
      nccl_durations = push_duration (now - m.nccl_enter_time) m.nccl_durations;
      ema_nccl = smooth (now - m.nccl_enter_time) m.ema_nccl;
      io_allowed = true;
      called = if m.on_nccl_end then nccl_end ∷ m.called else m.called;
    }
    else m

unfoldable pub enter_nccl : TrainingPhase → ℕ → Monitor → Monitor
enter_nccl new now m =
    if same_phase new nccl_comm
    then record m {
      nccl_enter_time = now;
      io_allowed = false;
      called = if m.on_nccl_start then nccl_start ∷ m.called else m.called;
    }
    else m

unfoldable pub enter_compute : TrainingPhase → ℕ → Monitor → Monitor
enter_compute new now m =
    if same_phase new compute then record m { compute_enter_time = now } else m

unfoldable pub set_phase : TrainingPhase → ℕ → Monitor → Monitor
unfolding leave_compute leave_nccl enter_nccl enter_compute
set_phase new now m =
    if same_phase m.phase new
    then m
    else let left = leave_nccl now (leave_compute now m) in
      let entered = enter_compute new now (enter_nccl new now left) in
      record entered { phase = new }

unfoldable pub increment_step : Monitor → Monitor
increment_step m = record m { step = m.step + 1 }

unfoldable pub reset_stats : Monitor → Monitor
reset_stats m = record m { nccl_total = 0; compute_total = 0 }

-- A `with` block over the monitor: what its body does, and how it ends. The `finally` clause runs
-- either way.
pub data Outcome : Type 0 where
  returns raises : Outcome

abbrev pub Body : Type 0
Body = Monitor → Monitor × Outcome

abbrev in_phase : TrainingPhase → TrainingPhase → ℕ → ℕ → Body → Body
in_phase during after start end body m =
    let (m', outcome) = body (set_phase during start m) in (set_phase after end m', outcome)

unfoldable pub nccl_phase : ℕ → ℕ → Body → Body
unfolding set_phase
nccl_phase = in_phase nccl_comm compute

unfoldable pub compute_phase : ℕ → ℕ → Body → Body
unfolding set_phase
compute_phase = in_phase compute idle

unfoldable pub checkpoint_phase : ℕ → ℕ → Body → Body
unfolding set_phase
checkpoint_phase = in_phase checkpoint idle

-- 256 MiB, `_TYPICAL_ALLREDUCE_BYTES`
abbrev pub typical_allreduce_bytes : ℕ
typical_allreduce_bytes = 256 * 1024 * 1024

-- `_TYPICAL_ALLREDUCE_BYTES / (self._ema_nccl_ms * 1e-3)`, in bytes per second.
abbrev allreduce_bps : Frac → Frac
allreduce_bps ema = Frac.div (whole typical_allreduce_bytes) (Frac.div ema (whole 1000000))

-- The caller's bandwidth, or the estimate where the caller gives 0 and there is one.
unfoldable pub effective_nccl_bps : Frac → Monitor → Frac
effective_nccl_bps nccl_bw_bps m =
    if is_zero nccl_bw_bps && not (is_zero m.ema_nccl)
    then allreduce_bps m.ema_nccl
    else nccl_bw_bps

-- `max(0.0, 1.0 - nccl_fraction - safety_margin)`
unfoldable pub available_fraction : Frac → Frac → Frac → Frac
available_fraction effective ceiling margin =
    Frac.sub (Frac.sub (whole 1) (Frac.div effective (max_frac ceiling (whole 1)))) margin

unfoldable pub get_dynamic_flush_rate : Frac → Frac → Frac → Frac → Monitor → Frac
unfolding effective_nccl_bps available_fraction
get_dynamic_flush_rate requested_bps nccl_bw_bps pcie_ceiling_bps safety_margin m =
    if same_phase m.phase nccl_comm
    then whole 0
    else min_frac requested_bps (
        Frac.mul pcie_ceiling_bps
          (available_fraction (effective_nccl_bps nccl_bw_bps m) pcie_ceiling_bps safety_margin))

unfoldable pub estimated_nccl_bps : Monitor → Frac
estimated_nccl_bps m =
    if not (same_phase m.phase nccl_comm)
    then whole 0
    else if is_zero m.ema_nccl
    then whole 0
    else allreduce_bps m.ema_nccl

-- `get_avg_nccl_duration_ms`, in microseconds.
unfoldable pub get_avg_nccl_duration : Monitor → Frac
get_avg_nccl_duration m = elim m.nccl_durations [
  | [] ↦ whole 0
  | _ ∷ _ ↦ frac (sum m.nccl_durations) (length m.nccl_durations)
]
