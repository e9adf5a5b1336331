-- ===== src/Scheduler/Staged.antt =====
-- `TEMPOSchedulerV2` of tempo/scheduler.py: the checkpoint behind the look-ahead and the gain.
use working_tempo.Base.{ℕ, ◌*◌, Bool, true, false, Option, none, some, not, List, if◌then◌else◌}
use working_tempo.Base.Frac
use working_tempo.Base.Frac.{Frac, frac, whole, max_frac}
use working_tempo.Phase.{Monitor, estimated_nccl_bps}
use working_tempo.Checkpoint.{Saving}
use working_tempo.Checkpoint.Flush.{Attempt}
use working_tempo.Network.{NetworkMonitor, new_monitor, link_speed, is_congested, stop}
use working_tempo.Network as Net
use working_tempo.Network.Rails.{count_idle_rails}
use working_tempo.Gain.{
  Libraries, GainScheduler, FlushPriority, update_step, set_congested, submit_job,
}
use working_tempo.Gain.Pcie.{Decision, defer, pcie_ceiling_bps, predict_kv_bytes, route_decision}
use working_tempo.Scheduler.{Scheduler, is_tempo, Answer, no_path, checkpoint, shutdown}
use working_tempo.Scheduler as V1

-- The entries of `metadata` that are read.
pub record Meta : Type 0 where
  pub size_bytes : Option ℕ
  pub batch_size : Option ℕ
  pub seq_len : Option ℕ
  pub n_layers : Option ℕ
  pub n_heads : Option ℕ
  pub head_dim : Option ℕ

-- A call of `checkpoint`, with what `torch.save` does and what the clock reads as the job is
-- submitted and around the local write.
pub record Call : Type 0 where
  pub step : ℕ
  pub saving : Saving
  pub meta : Meta
  pub submitted_at : ℕ
  pub started_at : ℕ
  pub ended_at : ℕ

-- `meta.get("size_bytes", 256 * 1024 * 1024)`
abbrev pub size_of : Meta → ℕ
size_of meta = elim meta.size_bytes [ none ↦ 256 * 1024 * 1024 | some size ↦ size ]

-- Exact where the shape of the model is known; its numbers have two bytes.
unfoldable pub kv_bytes : Meta → ℕ
unfolding predict_kv_bytes
kv_bytes meta = elim meta.batch_size [
  | none ↦ size_of meta
  | some batch ↦ elim meta.seq_len [
    | none ↦ size_of meta
    | some seq ↦ elim meta.n_layers [
      | none ↦ size_of meta
      | some layers ↦ elim meta.n_heads [
        | none ↦ size_of meta
        | some heads ↦ elim meta.head_dim [
          | none ↦ size_of meta
          | some dim ↦ predict_kv_bytes batch seq layers heads dim 2
        ]
      ]
    ]
  ]
]

-- `max(0.010, nccl_ms * 1e-3 * 0.5)`, in seconds.
abbrev pub flush_window : Monitor → Frac
flush_window m = max_frac (frac 10 1000) (Frac.mul m.ema_nccl (frac 1 2000000))

unfoldable pub idle_rails : Scheduler → ℕ
unfolding count_idle_rails
idle_rails s = elim s.net_monitor [ none ↦ 1 | some net ↦ count_idle_rails net ]

unfoldable pub look_ahead : Meta → Scheduler → Decision
unfolding kv_bytes idle_rails estimated_nccl_bps route_decision
look_ahead meta s =
    route_decision (kv_bytes meta) (flush_window s.phase_monitor)
      (estimated_nccl_bps s.phase_monitor) (idle_rails s) pcie_ceiling_bps

-- The steps of the scheduler of the gain, where there is one.
abbrev pub step_gain : ℕ → Scheduler → Scheduler
step_gain step s = record s {
  svc_gain = elim s.svc_gain [ none ↦ none | some gain ↦ some (update_step step gain) ];
}

-- `on_step_begin`: the congestion goes from the monitor to the gains.
unfoldable pub on_step_begin : ℕ → ℕ → Scheduler → Scheduler
unfolding V1.on_step_begin update_step set_congested
on_step_begin step now s =
    let begun = step_gain step (V1.on_step_begin now s) in
    record begun {
      svc_gain = elim begun.net_monitor [
        | none ↦ begun.svc_gain
        | some net ↦ elim begun.svc_gain [
          | none ↦ none
          | some gain ↦ some (set_congested (is_congested net) gain)
        ]
      ];
    }

abbrev pub is_defer : Decision → Bool
is_defer defer = true
is_defer _ = false

module _ (libs : Libraries) (sqrt : Frac → Frac) where
  -- `submit_job(None, step)`, where there is a scheduler of the gain.
  unfoldable pub submit_to :
      Option GainScheduler → ℕ → ℕ → Scheduler → Scheduler × Option FlushPriority
  unfolding submit_job
  submit_to none step now s = (s, none)
  submit_to (some gain) step now s =
      let (gain', priority) = submit_job libs 0 step now gain in
      (record s { svc_gain = some gain' }, some priority)

  unfoldable pub submit : ℕ → ℕ → Scheduler → Scheduler × Option FlushPriority
  unfolding submit_to
  submit step now s = submit_to s.svc_gain step now s

  abbrev pub to_recompute : Option FlushPriority → Bool
  to_recompute none = false
  to_recompute (some priority) = priority.recompute_fallback

  -- The final gate: the job is counted, and recomputed or saved.
  unfoldable pub gain_gate : Call → Scheduler → Scheduler × Answer
  unfolding submit checkpoint
  gain_gate c s =
      let (counted, priority) = submit c.step c.submitted_at s in
      if to_recompute priority
      then (counted, no_path)
      else checkpoint sqrt c.step c.saving c.started_at c.ended_at counted

  -- `checkpoint` of V2. Where the look-ahead defers, the job is counted all the same.
  unfoldable pub checkpoint_v2 : Call → Scheduler → Scheduler × Answer
  unfolding look_ahead submit gain_gate checkpoint update_step
  checkpoint_v2 c s =
      let stepped = step_gain c.step s in
      if not (is_tempo stepped.mode)
      then checkpoint sqrt c.step c.saving c.started_at c.ended_at stepped
      else if is_defer (look_ahead c.meta stepped)
      then ((submit c.step c.submitted_at stepped).0, no_path)
      else gain_gate c stepped

-- `shutdown` of V2: the monitor of the network is stopped as well.
unfoldable pub shutdown_v2 : Bool → List Attempt → Scheduler → Scheduler
unfolding shutdown Net.stop
shutdown_v2 wait attempts s =
    let halted = shutdown wait attempts s in
    record halted {
      net_monitor = elim halted.net_monitor [ none ↦ none | some net ↦ some (Net.stop net) ];
    }
