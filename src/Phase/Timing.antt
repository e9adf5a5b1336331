-- ===== src/Phase/Timing.antt =====
-- The time accounts of `PhaseMonitor` (tempo/phase_monitor.py) on a monotone clock.
use working_tempo.Base.{ℕ, ◌+◌, ◌≤◌, List, [], ◌∷◌, arith, if◌then◌else◌}
use working_tempo.Phase.{TrainingPhase, compute, nccl_comm, same_phase, Monitor, set_phase}

-- The time up to which the totals are closed: the start of the open interval, if there is one.
abbrev pub closed_until : ℕ → Monitor → ℕ
closed_until now m =
    if same_phase m.phase compute
    then m.compute_enter_time
    else if same_phase m.phase nccl_comm
    then m.nccl_enter_time
    else now

-- The totals fit between the start of the clock and the time up to which they are closed.
pub record IsTimed (start now : ℕ) (m : Monitor) : Type 0 where
  pub totals : start + m.compute_total + m.nccl_total ≤ closed_until now m
  pub closed : closed_until now m ≤ now

set_phase-IsTimed :
    (start now later : ℕ) (new : TrainingPhase) (m : Monitor)
    → now ≤ later
    → IsTimed start now m
    → IsTimed start later (set_phase new later m)
unfolding set_phase
set_phase-IsTimed start now later new m le h = ground arith

-- A sequence of transitions, each with the time of the clock.
abbrev pub run : List (TrainingPhase × ℕ) → Monitor → Monitor
run [] m = m
run ((new, at) ∷ moves) m = run moves (set_phase new at m)

-- The clock does not run back, and ends at `last`.
abbrev pub IsMonotone : ℕ → List (TrainingPhase × ℕ) → ℕ → Type 0
IsMonotone now [] last = now ≤ last
IsMonotone now ((_, at) ∷ moves) last = (now ≤ at) × IsMonotone at moves last

later-IsTimed :
    (start now later : ℕ) (m : Monitor) → now ≤ later → IsTimed start now m → IsTimed start later m
later-IsTimed start now later m le h = ground arith

-- On a monotone clock the NCCL time and the compute time together are never more than the time that
-- has passed, however the phases follow one another.
pub run-IsTimed :
    (start now last : ℕ) (moves : List (TrainingPhase × ℕ)) (m : Monitor)
    → IsTimed start now m
    → IsMonotone now moves last
    → IsTimed start last (run moves m)
      × (start + (run moves m).compute_total + (run moves m).nccl_total ≤ last)
run-IsTimed start now last [] m h le =
    let t = later-IsTimed start now last m le h in (t, ground (arith, t.totals, t.closed))
run-IsTimed start now last ((new, at) ∷ moves) m h le =
    run-IsTimed start at last moves (set_phase new at m)
      (set_phase-IsTimed start now at new m le.0 h) le.1
