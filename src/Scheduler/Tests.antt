-- ===== src/Scheduler/Tests.antt =====
-- Tests of tempo/scheduler.py, and the theorems at concrete schedulers.
use working_tempo.Base.{◌≡◌, ◌≢◌, ◌⊎◌, inl, refl, true, false, none, some, List, [], ◌∷◌, arith}
use working_tempo.Base.Dict.{lookup}
use working_tempo.Base.Frac.{Frac, frac, whole}
use working_tempo.Phase.{compute, nccl_comm, init}
use working_tempo.Phase.Gate.{IsGated}
use working_tempo.Checkpoint.{Bytes, wrote, new_manager}
use working_tempo.Checkpoint.Accounts.{IsAccounted}
use working_tempo.Checkpoint.Chunks.{Round}
use working_tempo.Checkpoint.Flush.{Attempt}
use working_tempo.Checkpoint.Drain.{IsSuccess}
use working_tempo.Gain.{Libraries, GainScheduler, new_scheduler as new_gain}
use working_tempo.Interleave.{new_engine, new_predictor}
use working_tempo.Topology.{TopologyRouter}
use working_tempo.Scheduler.{tempo, Scheduler, parse_mode, new_scheduler, checkpoint, shutdown}
use working_tempo.Scheduler.Staged.{Meta, Call, checkpoint_v2}
use working_tempo.Scheduler.Placed.{checkpoint_v3}
use working_tempo.Scheduler.Saves.{Saves, checkpoint-Saves, shutdown_lem}
use working_tempo.Scheduler.Jobs.{IsStaged, checkpoint_v2-IsStaged}
use working_tempo.Scheduler.Placements.{unpolled, IsTwice, checkpoint_v3-IsTwice}
use working_tempo.Scheduler.Gates.{Move, enters, expires, fires, run, AreSynced, run-AreSynced}

-- "greedy" is no mode.
greedy_run : new_scheduler (103 ∷ 114 ∷ 101 ∷ 101 ∷ 100 ∷ 121 ∷ []) true false 32 true ≡ none
unfolding new_scheduler parse_mode
greedy_run = refl

abbrev libs : Libraries
libs = record { exp_neg = λ x. frac 1 2; heappush = λ e h. e ∷ h }

abbrev root : Frac → Frac
root x = whole 7

abbrev content : Bytes
content = 4 ∷ 2 ∷ []

abbrev gain : GainScheduler
gain = new_gain (whole 1000) 500 200 (frac 40 100)

abbrev router : TopologyRouter
router = record {
  rank = 0;
  group_size = 4;
  global_link_quota = frac 20 100;
  my_nid = none;
  my_group = 0;
  rank_to_group = (0, 0) ∷ [];
  local_peers = [];
  global_link_saturated = false;
  has_hw_counters = true;
  total_decisions = 0;
  local_decisions = 0;
  deferred_decisions = 0;
}

abbrev paced : Scheduler
paced = record {
  mode = tempo;
  lustre_dir = true;
  phase_monitor = init;
  ckpt_manager = new_manager true true 3 true 4096;
  step_start = 0;
  step_times = [];
  net_monitor = none;
  svc_gain = some gain;
  interleaving = some (new_engine (new_predictor (frac 20 100)));
  topo_router = some router;
  qos_mapper = none;
}

abbrev no_shape : Meta
no_shape = record {
  size_bytes = some 4096;
  batch_size = none;
  seq_len = none;
  n_layers = none;
  n_heads = none;
  head_dim = none;
}

abbrev call : Call
call = record {
  step = 12;
  saving = wrote content;
  meta = no_shape;
  submitted_at = 100;
  started_at = 110;
  ended_at = 150;
}

init-IsGated : IsGated init
init-IsGated = ground arith

paced-AreSynced : AreSynced root paced
paced-AreSynced = record { gated = init-IsGated; shut = inl (λ e. cc) }

checkpoint-Saves_example :
    let (after, answer) = checkpoint root 12 (wrote content) 110 150 paced in
    Saves 12 (wrote content) paced after answer
checkpoint-Saves_example = checkpoint-Saves root 12 (wrote content) 110 150 paced refl init-IsGated

checkpoint_v2-IsStaged_example :
    IsStaged libs root call gain paced (checkpoint_v2 libs root call paced)
checkpoint_v2-IsStaged_example = checkpoint_v2-IsStaged libs root call gain paced refl refl

checkpoint_v3-IsTwice_example :
    IsTwice libs root call gain paced (checkpoint_v3 libs root (unpolled 4 1) call paced)
checkpoint_v3-IsTwice_example =
    checkpoint_v3-IsTwice libs root 4 1 call gain router paced refl refl refl
      (record { no_flag = refl })

abbrev moves : List (Move root)
moves = enters compute 5 ∷ enters nccl_comm 30 ∷ expires ∷ fires ∷ []

run-AreSynced_example :
    let after = run root moves paced in
    AreSynced root after
    × ((after.phase_monitor.phase ≢ nccl_comm) ⊎ (after.phase_monitor.io_allowed ≡ false))
run-AreSynced_example = run-AreSynced root moves paced paced-AreSynced

abbrev round : Round
round = record {
  resized_at = init;
  paced_at = init;
  waits = [];
  gate_time = 40;
  write_time = 1000;
  writes = true;
}

abbrev attempt : Attempt
attempt = record { opens = true; renames = true; rounds = λ i. round }

attempt-IsSuccess : IsSuccess attempt
attempt-IsSuccess = record { opens = refl; renames = refl; smooth = λ i. (tt, refl) }

-- With step 12 in the queue.
abbrev waiting : Scheduler
waiting = record paced {
  ckpt_manager = record (new_manager true true 3 true 4096) {
    local_files = (12, content) ∷ [];
    bytes_local = 2;
    queue = record { step = 12; size_bytes = 2 } ∷ [];
    unfinished = 1;
    bytes_pending = 2;
  };
}

waiting-IsAccounted : IsAccounted 3 0 waiting.ckpt_manager
waiting-IsAccounted = record {
  chunk = omega arith;
  fixed = refl;
  bounded = omega arith;
  open_jobs = refl;
  pending = refl;
}

shutdown_lem_example :
    let after = (shutdown true (attempt ∷ []) waiting).ckpt_manager in
    (after.stopped ≡ true)
    × (after.queue ≡ [])
    × (lookup 12 after.lustre_files ≡ some content)
    × (after.bytes_pending ≡ 0)
shutdown_lem_example =
    shutdown_lem 3 0 12 content (attempt ∷ []) waiting waiting-IsAccounted
      (record { local = (refl, tt); lustre = tt; temp = tt }) refl (attempt-IsSuccess, tt)
      (omega arith) (inl refl) refl
