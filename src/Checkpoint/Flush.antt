-- ===== src/Checkpoint/Flush.antt =====
-- `_do_flush` and `_flush_worker` (tempo/checkpoint_manager.py). What a flush meets is an argument: the
-- answers of the file system, and the rounds of the chunk loop. A flush reads its source at one time.
use working_tempo.Base.{
  ℕ, suc, ◌+◌, ◌-◌, Bool, true, false, none, some, List, [], ◌∷◌, if◌then◌else◌, length,
}
use working_tempo.Base.Dict.{lookup, insert, erase}
use working_tempo.Checkpoint.{
  Bytes, FlushJob, Manager, Saving, save_async, save_sync_lustre, shutdown,
}
use working_tempo.Checkpoint.Chunks.{Round, Copy, End, done, missing, halted, failed, copy_loop}

pub record Attempt : Type 0 where
  -- Do the directory and the two files open, and does the rename succeed?
  pub opens : Bool
  pub renames : Bool
  pub rounds : ℕ → Round

abbrev pub start_copy : Bytes → Manager → Copy
start_copy content m = record {
  chunk_bytes = m.chunk_bytes;
  throttle_waits = m.throttle_waits;
  left = content;
  copied = [];
  samples = [];
  write_acc = 0;
  block_acc = 0;
  sleeps = [];
}

-- Each round but the last reads a byte.
unfoldable pub copy_file : Attempt → Bytes → Manager → Copy × End
unfolding copy_loop
copy_file a content m =
    copy_loop m.adaptive_chunk m.phase_monitor a.rounds (suc (length content)) 0
      (start_copy content m)

-- What the loop leaves, however it ends: the `.tmp` file and the fields that the loop changes.
abbrev pub after_copy : ℕ → Copy → Manager → Manager
after_copy step c m = record m {
  chunk_bytes = c.chunk_bytes;
  throttle_waits = c.throttle_waits;
  temp_files = insert step c.copied m.temp_files;
}

-- `tmp_dst.rename(dst)`, the statistics, and `src.unlink`.
unfoldable pub complete : FlushJob → Copy → Manager → Manager
complete job c m = record m {
  lustre_files = insert job.step c.copied m.lustre_files;
  temp_files = erase job.step m.temp_files;
  bytes_lustre = m.bytes_lustre + length c.copied;
  bytes_pending = m.bytes_pending - job.size_bytes;
  flush_count = m.flush_count + 1;
  flush_write = m.flush_write + c.write_acc;
  flush_block = m.flush_block + c.block_acc;
  local_files = erase job.step m.local_files;
}

-- Behind the loop. The stop event that ended it is set.
unfoldable pub finish : Attempt → FlushJob → Copy × End → Manager → Manager × End
unfolding complete
finish a job (c, end) m =
    let copied = after_copy job.step c m in
    elim end [
      | done ↦ if a.renames then (complete job c copied, done) else (copied, failed)
      | halted ↦ (record copied { stopped = true }, halted)
      | other ↦ (copied, other)
    ]

unfoldable pub do_flush : Attempt → FlushJob → Manager → Manager × End
unfolding copy_file finish
do_flush a job m = elim (lookup job.step m.local_files) [
  | none ↦ (record m { bytes_pending = m.bytes_pending - job.size_bytes }, missing)
  | some content ↦ if a.opens then finish a job (copy_file a content m) m else (m, failed)
]

-- The end of a job that the worker has taken from the queue: `task_done` however its flush ends.
unfoldable pub end_flush : Attempt → FlushJob → Manager → Manager
unfolding do_flush
end_flush a job m =
    let (flushed, _) = do_flush a job m in
    record flushed { unfinished = flushed.unfinished - 1; flushing = none }

-- The job that the worker takes in a round: none once it is stopped or where the queue is empty.
abbrev pub with_job : {A : Type 0} → Manager → A → (FlushJob → List FlushJob → A) → A
with_job m none_taken taken = elim m.stopped [
  | true ↦ none_taken
  | false ↦ elim m.queue [ [] ↦ none_taken | job ∷ rest ↦ taken job rest ]
]

abbrev pub taken : FlushJob → List FlushJob → Manager → Manager
taken job rest m = record m { queue = rest; flushing = some job }

-- `self._queue.get`, by a worker that flushes nothing.
unfoldable pub take_job : Manager → Manager
take_job m = elim m.flushing [ some _ ↦ m | none ↦ with_job m m (λ job rest. taken job rest m) ]

-- The rest of a round.
unfoldable pub end_round : Attempt → Manager → Manager
unfolding end_flush
end_round a m = elim m.flushing [ none ↦ m | some job ↦ end_flush a job m ]

-- A round of the worker.
unfoldable pub flush_worker : Attempt → Manager → Manager
unfolding take_job end_round
flush_worker a m = end_round a (take_job m)

-- The calls and the two parts of the worker's rounds, in the order in which they take place.
pub data Op : Type 0 where
  save save_sync : ℕ → Saving → Op
  take : Op
  flush : Attempt → Op
  shut_down : Op

unfoldable pub apply : Op → Manager → Manager
unfolding save_async save_sync_lustre take_job end_round shutdown
apply (save step saving) m = save_async step saving m
apply (save_sync step saving) m = elim (save_sync_lustre step saving m) [
  | none ↦ m
  | some saved ↦ saved
]
apply take m = take_job m
apply (flush a) m = end_round a m
apply shut_down m = shutdown m

abbrev pub run : List Op → Manager → Manager
run [] m = m
run (op ∷ ops) m = run ops (apply op m)
