-- ===== src/Phase/Tests.antt =====
-- Tests of `PhaseMonitor` (tempo/phase_monitor.py), and the theorems at concrete monitors.
use working_tempo.Base.{◌≢◌, ◌⊎◌, ℕ, ◌+◌, ◌≤◌, ◌≡◌, refl, true, false, List, [], ◌∷◌, arith}
use working_tempo.Base.Frac.{frac, whole, LeFrac}
use working_tempo.Phase.{
  TrainingPhase, idle, compute, nccl_comm, init, set_phase, Body, raises, nccl_phase, leave_compute,
  leave_nccl, enter_nccl, enter_compute, get_dynamic_flush_rate,
}
use working_tempo.Phase.Gate.{IsGated, KeepsGate, nccl_phase_lem}
use working_tempo.Phase.Timing.{run, IsTimed, run-IsTimed}
use working_tempo.Phase.Rate.{get_dynamic_flush_rate_lem}

init-IsGated : IsGated init
init-IsGated = ground arith

init-IsTimed : IsTimed 0 0 init
init-IsTimed = ground arith

-- A body that counts a step and raises.
abbrev failing : Body
failing m = (record m { step = m.step + 1 }, raises)

failing-KeepsGate : KeepsGate failing
failing-KeepsGate m h = ground (arith, h)

abbrev moves : List (TrainingPhase × ℕ)
moves = (compute, 5) ∷ (nccl_comm, 30) ∷ (compute, 50) ∷ (idle, 90) ∷ []

run-moves : ((run moves init).compute_total ≡ 65) × ((run moves init).nccl_total ≡ 20)
unfolding set_phase leave_compute leave_nccl enter_nccl enter_compute
run-moves = (refl, refl)

nccl_phase_lem_example :
    let inside = set_phase nccl_comm 3 init in
    let (after, outcome) = nccl_phase 3 8 failing init in
    (inside.io_allowed ≡ false)
    × (after.phase ≡ compute)
    × (after.io_allowed ≡ true)
    × (outcome ≡ raises)
    × IsGated after
nccl_phase_lem_example = nccl_phase_lem 3 8 failing init failing-KeepsGate init-IsGated

run-IsTimed_example :
    IsTimed 0 95 (run moves init)
    × (0 + (run moves init).compute_total + (run moves init).nccl_total ≤ 95)
run-IsTimed_example =
    run-IsTimed 0 0 95 moves init init-IsTimed
      (omega arith, (omega arith, (omega arith, (omega arith, omega arith))))

get_dynamic_flush_rate_lem_run :
    let rate = get_dynamic_flush_rate (whole 20) (whole 5) (whole 16) (frac 1 10) init in
    ((init.phase ≢ nccl_comm) ⊎ (rate ≡ whole 0)) × LeFrac rate (whole 20) × LeFrac rate (whole 16)
get_dynamic_flush_rate_lem_run =
    get_dynamic_flush_rate_lem (whole 20) (whole 5) (whole 16) (frac 1 10) init (omega arith)
      (omega arith) (omega arith) (omega arith)
