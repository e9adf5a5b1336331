-- ===== src/Scheduler.antt =====
-- `TEMPOScheduler` of tempo/scheduler.py and the state of the versions V2 and V3, whose further
-- components are options of one record: a version that does not have a component has none of it.
-- Each call reads the clock where its arguments say so, in microseconds.
pub mod Staged
pub mod Placed
pub mod Saves
pub mod Jobs
pub mod Placements
pub mod Gates
mod Tests
use working_tempo.Base.{
  ℕ, ◌+◌, ◌-◌, ◌*◌, Bool, true, false, not, ◌&&◌, ◌||◌, Option, none, some, List, [], ◌∷◌, ◌++◌,
  if◌then◌else◌, ◌==◌,
}
use working_tempo.Base.Frac.{Frac, whole}
use working_tempo.Phase.{
  TrainingPhase, idle, compute, nccl_comm, checkpoint as checkpointing, same_phase, Monitor, init,
  set_phase, increment_step, Outcome, returns,
}
use working_tempo.Checkpoint.{
  Saving, wrote, broke, Manager, new_manager, save_async, save_sync_lustre,
}
use working_tempo.Checkpoint.Flush.{Attempt, flush_worker}
use working_tempo.Network.{NetworkMonitor}
use working_tempo.Gain.{GainScheduler}
use working_tempo.Interleave.{Engine, on_compute_start, on_compute_end}
use working_tempo.Topology.{TopologyRouter}
use working_tempo.Qos.{QosMapper}
use working_tempo.Checkpoint as Ckpt

pub data Mode : Type 0 where
  tempo baseline : Mode

-- `mode`, as the codes of its characters: any other text raises ValueError.
abbrev pub same_text : List ℕ → List ℕ → Bool
same_text [] [] = true
same_text (c ∷ cs) (d ∷ ds) = (c == d) && same_text cs ds
same_text _ _ = false

unfoldable pub parse_mode : List ℕ → Option Mode
parse_mode text =
    if same_text text (116 ∷ 101 ∷ 109 ∷ 112 ∷ 111 ∷ [])
    then some tempo
    else if same_text text (98 ∷ 97 ∷ 115 ∷ 101 ∷ 108 ∷ 105 ∷ 110 ∷ 101 ∷ [])
    then some baseline
    else none

pub record Scheduler : Type 0 where
  pub mode : Mode
  pub lustre_dir : Bool
  pub phase_monitor : Monitor
  pub ckpt_manager : Manager
  pub step_start : ℕ
  pub step_times : List ℕ
  pub net_monitor : Option NetworkMonitor
  pub svc_gain : Option GainScheduler
  pub interleaving : Option Engine
  pub topo_router : Option TopologyRouter
  pub qos_mapper : Option QosMapper

abbrev pub is_tempo : Mode → Bool
is_tempo tempo = true
is_tempo baseline = false

-- `TEMPOScheduler(...)`: the directory that is given, or that of the environment.
unfoldable pub new_scheduler : List ℕ → Bool → Bool → ℕ → Bool → Option Scheduler
unfolding parse_mode
new_scheduler text given pscratch chunk_mb adaptive = elim (parse_mode text) [
  | none ↦ none
  | some mode ↦ some (record {
    mode = mode;
    lustre_dir = given || pscratch;
    phase_monitor = init;
    ckpt_manager =
        new_manager (given || pscratch) (is_tempo mode) 3 adaptive (chunk_mb * 1024 * 1024);
    step_start = 0;
    step_times = [];
    net_monitor = none;
    svc_gain = none;
    interleaving = none;
    topo_router = none;
    qos_mapper = none;
  })
]

-- What `checkpoint` answers: the path, `""` or `None`, or an exception.
pub data Answer : Type 0 where
  local_path lustre_path : ℕ → Answer
  no_path raises : Answer

unfoldable pub on_step_begin : ℕ → Scheduler → Scheduler
unfolding increment_step
on_step_begin now s = record s { phase_monitor = increment_step s.phase_monitor; step_start = now }

unfoldable pub on_step_end : ℕ → Scheduler → Scheduler
on_step_end now s = record s { step_times = s.step_times ++ (now - s.step_start) ∷ [] }

-- A save whose `torch.save` raises passes the exception on.
abbrev pub or_raises : Saving → Answer → Answer
or_raises (wrote content) answer = answer
or_raises (broke part) answer = raises

-- The branch "baseline" of `checkpoint`.
unfoldable pub save_greedy : ℕ → Saving → Scheduler → Scheduler × Answer
unfolding save_sync_lustre
save_greedy step saving s =
    if not s.lustre_dir then (s, raises) else elim (save_sync_lustre step saving s.ckpt_manager) [
      | none ↦ (s, raises)
      | some manager ↦ (record s { ckpt_manager = manager }, or_raises saving (lustre_path step))
    ]

module _ (sqrt : Frac → Frac) where
  -- The hooks of V2 on the monitor's gate, which it sets behind an NCCL phase and clears before one.
  unfoldable pub hooked : TrainingPhase → TrainingPhase → ℕ → Engine → Engine
  unfolding on_compute_start on_compute_end
  hooked old new now e =
      if same_phase old new
      then e
      else if same_phase old nccl_comm
      then on_compute_start sqrt now e
      else if same_phase new nccl_comm
      then on_compute_end now e
      else e

  unfoldable pub transition : TrainingPhase → ℕ → Scheduler → Scheduler
  unfolding hooked set_phase
  transition new now s = record s {
    phase_monitor = set_phase new now s.phase_monitor;
    interleaving = elim s.interleaving [
      | none ↦ none
      | some e ↦ some (hooked s.phase_monitor.phase new now e)
    ];
  }

  -- `nccl_phase` and `compute_phase` around the body of a `with` block.
  abbrev pub Block : Type 0
  Block = Scheduler → Scheduler × Outcome

  abbrev pub in_phase : TrainingPhase → TrainingPhase → ℕ → ℕ → Block → Block
  in_phase during after start end body s =
      let (left, outcome) = body (transition during start s) in (transition after end left, outcome)

  unfoldable pub nccl_phase : ℕ → ℕ → Block → Block
  unfolding transition
  nccl_phase = in_phase nccl_comm compute

  unfoldable pub compute_phase : ℕ → ℕ → Block → Block
  unfolding transition
  compute_phase = in_phase compute idle

  -- The branch "tempo" of `checkpoint`: the local write is marked as a CHECKPOINT phase, which ends
  -- however the write does.
  unfoldable pub save_staged : ℕ → Saving → ℕ → ℕ → Scheduler → Scheduler × Answer
  unfolding transition save_async
  save_staged step saving start end s =
      let marked = transition checkpointing start s in
      let staged : Scheduler = record marked {
        ckpt_manager = save_async step saving marked.ckpt_manager;
      } in
      (transition idle end staged, or_raises saving (local_path step))

  -- `checkpoint` of V1.
  unfoldable pub checkpoint : ℕ → Saving → ℕ → ℕ → Scheduler → Scheduler × Answer
  unfolding save_staged save_greedy
  checkpoint step saving start end s =
      if is_tempo s.mode then save_staged step saving start end s else save_greedy step saving s

-- `shutdown(wait)`: where it waits, the worker makes its rounds until the queue is done.
abbrev pub work : List Attempt → Manager → Manager
work [] m = m
work (a ∷ attempts) m = work attempts (flush_worker a m)

unfoldable pub shutdown : Bool → List Attempt → Scheduler → Scheduler
unfolding Ckpt.shutdown flush_worker
shutdown wait attempts s =
    let manager = if wait then work attempts s.ckpt_manager else s.ckpt_manager in
    record s { ckpt_manager = Ckpt.shutdown manager }
