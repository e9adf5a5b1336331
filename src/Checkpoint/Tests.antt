-- ===== src/Checkpoint/Tests.antt =====
-- Tests of `CheckpointManager` (tempo/checkpoint_manager.py), and the theorems at concrete managers.
use working_tempo.Base.{
  ◌+◌, ◌-◌, ◌≤◌, ◌≡◌, ◌≢◌, ◌⊎◌, inl, refl, ap, true, false, some, none, List, [], ◌∷◌, arith,
}
use working_tempo.Base.Dict.{lookup}
use working_tempo.Base.Frac.{Frac, frac, LeFrac}
use working_tempo.Phase.{init, nccl_comm}
use working_tempo.Checkpoint.{
  Bytes, FlushJob, Manager, new_manager, wrote, save_async, enqueue, wait_for_all_flushes,
}
use working_tempo.Checkpoint.Chunks.{
  Round, Copy, prepare, done, min_chunk_bytes, max_chunk_bytes, copy_loop, write_chunk, push_sample,
}
use working_tempo.Checkpoint.Flush.{
  Attempt, do_flush, Op, save, flush, run, apply, take, take_job, end_round, end_flush, finish,
  copy_file, complete, start_copy,
}
use working_tempo.Checkpoint.Copies.{IsSmooth}
use working_tempo.Checkpoint.Pacing.{prepare_lem}
use working_tempo.Checkpoint.Files.{IsTidy, do_flush_lem}
use working_tempo.Checkpoint.Origins.{Saved, run_complete}
use working_tempo.Checkpoint.Accounts.{IsAccounted}
use working_tempo.Checkpoint.Drain.{IsSuccess, drain, drain_lem}

abbrev round : Round
round = record {
  resized_at = init;
  paced_at = init;
  waits = false ∷ false ∷ [];
  gate_time = 40;
  write_time = 1000;
  writes = true;
}

abbrev attempt : Attempt
attempt = record { opens = true; renames = true; rounds = λ i. round }

-- Without a phase monitor, in chunks of two bytes.
abbrev start : Manager
start = new_manager true false 3 false 2

abbrev content : Bytes
content = 7 ∷ 8 ∷ 9 ∷ []

-- As step 5 has been saved.
abbrev saved : Manager
saved = record start {
  local_files = (5, content) ∷ [];
  bytes_local = 3;
  queue = record { step = 5; size_bytes = 3 } ∷ [];
  unfinished = 1;
  bytes_pending = 3;
}

saved-save_async : save_async 5 (wrote content) start ≡ saved
unfolding save_async enqueue
saved-save_async = refl

abbrev job : FlushJob
job = record { step = 5; size_bytes = 3 }

abbrev ops : List Op
ops = save 5 (wrote content) ∷ take ∷ flush attempt ∷ []

run-flushes : (run ops start).lustre_files ≡ (5, content) ∷ []
unfolding apply save_async enqueue take_job end_round end_flush do_flush finish copy_file complete
    copy_loop write_chunk push_sample
run-flushes = refl

run-flushed : lookup 5 (run ops start).lustre_files ≡ some content
run-flushed = ap (lookup 5) run-flushes

smooth : IsSmooth round
smooth = ((refl, (refl, tt)), refl)

attempt-IsSuccess : IsSuccess attempt
attempt-IsSuccess = record { opens = refl; renames = refl; smooth = λ i. smooth }

saved-IsTidy : IsTidy saved
saved-IsTidy = record { local = (refl, tt); lustre = tt; temp = tt }

saved-IsAccounted : IsAccounted 3 0 saved
saved-IsAccounted = record {
  chunk = omega arith;
  fixed = refl;
  bounded = omega arith;
  open_jobs = refl;
  pending = refl;
}

abbrev part : Copy
part = start_copy content saved

prepare_lem_example :
    let (ready, stop) = prepare true true round part in
    (stop ≡ false)
    × (ready.left ≡ content)
    × (ready.copied ≡ [])
    × ((ready.chunk_bytes ≡ 2)
        ⊎ (min_chunk_bytes ≤ ready.chunk_bytes) × (ready.chunk_bytes ≤ max_chunk_bytes))
    × ((init.phase ≢ nccl_comm) ⊎ (ready.throttle_waits ≡ 0 + 2) × (ready.sleeps ≡ []))
    × ((ready.sleeps ≡ []) ⊎ ((s : Frac) × LeFrac s (frac 50 1000) × (ready.sleeps ≡ s ∷ [])))
prepare_lem_example = prepare_lem true round part (refl, (refl, tt))

do_flush_lem_example :
    let (after, end) = do_flush attempt job saved in
    (end ≡ done)
    × (lookup 5 after.lustre_files ≡ some content)
    × (lookup 5 after.local_files ≡ none)
    × (lookup 5 after.temp_files ≡ none)
    × (lookup 4 after.lustre_files ≡ none)
    × (lookup 4 after.local_files ≡ none)
    × (lookup 4 after.temp_files ≡ none)
    × (after.bytes_lustre ≡ 0 + 3)
    × (after.bytes_pending ≡ 3 - 3)
    × (after.flush_count ≡ 0 + 1)
do_flush_lem_example =
    do_flush_lem attempt job content 4 saved (omega arith) saved-IsTidy refl refl refl (λ i. smooth)
      (omega arith)

run_complete_example : Saved (5, content) ops
run_complete_example = run_complete true false 3 false 2 ops 5 content (omega arith) run-flushed

drain_lem_example :
    let after = drain (attempt ∷ []) saved in
    (after.queue ≡ [])
    × (wait_for_all_flushes after ≡ true)
    × (lookup 5 after.lustre_files ≡ some content)
    × (lookup 5 after.local_files ≡ none)
    × (after.bytes_pending ≡ 0)
drain_lem_example =
    drain_lem 3 0 5 content (attempt ∷ []) saved saved-IsAccounted saved-IsTidy refl
      (attempt-IsSuccess, tt) (omega arith) (inl refl) refl
