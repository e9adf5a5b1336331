-- ===== src/Phase/Gate.antt =====
-- The gate of `PhaseMonitor` (tempo/phase_monitor.py): I/O is paused exactly during NCCL phases.
use working_tempo.Base.{
  ℕ, ◌-◌, ◌≤◌, ◌≡◌, refl, not, true, false, List, [], ◌∷◌, ◌++◌, arith, length, length-append,
  length-drop,
}
use working_tempo.Phase.{
  TrainingPhase, idle, compute, nccl_comm, same_phase, Monitor, nccl_window_size, push_duration,
  set_phase, Body, nccl_phase,
}

-- I/O may proceed exactly outside NCCL phases, and at most 16 durations are kept.
pub record IsGated (m : Monitor) : Type 0 where
  pub gate : m.io_allowed ≡ not (same_phase m.phase nccl_comm)
  pub window : length m.nccl_durations ≤ nccl_window_size

length-push_duration :
    (e : ℕ) (w : List ℕ)
    → length w ≤ nccl_window_size
    → length (push_duration e w) ≤ nccl_window_size
unfolding push_duration
length-push_duration e w h = ground (arith, length-append w (e ∷ []), length-drop 1 (w ++ e ∷ []))

-- A transition to any phase keeps the gate.
pub set_phase-IsGated :
    (new : TrainingPhase) (now : ℕ) (m : Monitor) → IsGated m → IsGated (set_phase new now m)
unfolding set_phase
set_phase-IsGated new now m h =
    ground (arith, length-push_duration (now - m.nccl_enter_time) m.nccl_durations)

pub set_phase-phase :
    (new : TrainingPhase) (now : ℕ) (m : Monitor) → (set_phase new now m).phase ≡ new
unfolding set_phase
set_phase-phase idle now m = ground arith
set_phase-phase _ now m = ground arith

-- What a body of a `with` block must not do: break the gate. Every transition keeps it.
abbrev pub KeepsGate : Body → Type 0
KeepsGate body = (m : Monitor) → IsGated m → IsGated (body m).0

-- On a monitor whose gate agrees with its phase, `nccl_phase` has paused I/O as its body begins. Behind
-- a body that keeps this agreement, as transitions and nested phases do, the phase is COMPUTE and I/O is
-- allowed, whether the body returns or raises, and what the body raised is raised.
pub nccl_phase_lem :
    (start end : ℕ) (body : Body) (m : Monitor)
    → KeepsGate body
    → IsGated m
    → let inside = set_phase nccl_comm start m in
      let (after, outcome) = nccl_phase start end body m in
      (inside.io_allowed ≡ false)
      × (after.phase ≡ compute)
      × (after.io_allowed ≡ true)
      × (outcome ≡ (body inside).1)
      × IsGated after
unfolding nccl_phase
nccl_phase_lem start end body m keep h =
    let inside = set_phase nccl_comm start m in
    let in_gate = set_phase-IsGated nccl_comm start m h in
    let out_gate = set_phase-IsGated compute end (body inside).0 (keep inside in_gate) in
    let in_phase = set_phase-phase nccl_comm start m in
    let out_phase = set_phase-phase compute end (body inside).0 in
    (
      ground (arith, in_gate.gate, in_phase),
      out_phase,
      ground (arith, out_gate.gate, out_phase),
      refl,
      out_gate,
    )
