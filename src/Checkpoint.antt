-- ===== src/Checkpoint.antt =====
-- `CheckpointManager` of tempo/checkpoint_manager.py. The manager has one rank, so that the step
-- names a checkpoint's file in each directory; what `torch.save` writes for a state, or leaves as it
-- raises, is an argument, as a list of bytes. The local directory, the Lustre directory and its `.tmp` files are dicts of
-- such files.
pub mod Chunks
pub mod Flush
pub mod Copies
pub mod Pacing
pub mod Files
pub mod Origins
pub mod Accounts
pub mod Drain
mod Tests
use working_tempo.Base.{
  ℕ, ◌+◌, ◌-◌, ◌*◌, Bool, true, false, ◌&&◌, Option, none, some, List, [], ◌∷◌, ◌++◌, if◌then◌else◌,
  ltb, leb, length,
}
use working_tempo.Base.Dict.{Dict, insert}
use working_tempo.Base.Frac.{Frac, frac}

abbrev pub Bytes : Type 0
Bytes = List ℕ

-- `_FlushJob`: both paths are named by the step.
pub record FlushJob : Type 0 where
  pub step : ℕ
  pub size_bytes : ℕ

pub record Manager : Type 0 where
  -- Are `lustre_dir` and `phase_monitor` given?
  pub lustre_dir : Bool
  pub phase_monitor : Bool
  pub max_pending : ℕ
  pub adaptive_chunk : Bool
  pub chunk_bytes : ℕ
  pub queue : List FlushJob
  -- The job that the worker has taken and not finished.
  pub flushing : Option FlushJob
  -- The jobs for which `task_done` has not been called.
  pub unfinished : ℕ
  pub stopped : Bool
  pub bytes_local : ℕ
  pub bytes_lustre : ℕ
  pub bytes_pending : ℕ
  pub flush_count : ℕ
  pub throttle_waits : ℕ
  -- In nanoseconds.
  pub flush_write : ℕ
  pub flush_block : ℕ
  pub local_files : Dict Bytes
  pub lustre_files : Dict Bytes
  pub temp_files : Dict Bytes

-- 128 MiB, `DEFAULT_CHUNK`
abbrev pub default_chunk : ℕ
default_chunk = 128 * 1024 * 1024

-- `CheckpointManager(...)` over empty directories.
abbrev pub new_manager : Bool → Bool → ℕ → Bool → ℕ → Manager
new_manager lustre monitor max_pending adaptive chunk = record {
  lustre_dir = lustre;
  phase_monitor = monitor;
  max_pending = max_pending;
  adaptive_chunk = adaptive;
  chunk_bytes = chunk;
  queue = [];
  flushing = none;
  unfinished = 0;
  stopped = false;
  bytes_local = 0;
  bytes_lustre = 0;
  bytes_pending = 0;
  flush_count = 0;
  throttle_waits = 0;
  flush_write = 0;
  flush_block = 0;
  local_files = [];
  lustre_files = [];
  temp_files = [];
}

-- `queue.Queue(maxsize)` is never full where `maxsize` is 0.
abbrev pub is_full : Manager → Bool
is_full m = ltb 0 m.max_pending && leb m.max_pending (length m.queue)

-- `put_nowait`, and the count of the pending bytes; a job is dropped where the queue is full.
unfoldable pub enqueue : FlushJob → Manager → Manager
enqueue job m = if is_full m then m else record m {
  queue = m.queue ++ job ∷ [];
  unfinished = m.unfinished + 1;
  bytes_pending = m.bytes_pending + job.size_bytes;
}

-- What `torch.save` does to its file: all of it is written, or it raises. Where it raises as it opens
-- the file nothing is changed, and else the part that it has written is left.
pub data Saving : Type 0 where
  wrote : Bytes → Saving
  broke : Option Bytes → Saving

abbrev pub left_part : ℕ → Option Bytes → Dict Bytes → Dict Bytes
left_part step none files = files
left_part step (some part) files = insert step part files

-- The call raises exactly where `torch.save` does.
unfoldable pub save_async : ℕ → Saving → Manager → Manager
unfolding enqueue
save_async step (broke part) m = record m { local_files = left_part step part m.local_files }
save_async step (wrote content) m =
    let saved : Manager = record m {
      local_files = insert step content m.local_files;
      bytes_local = m.bytes_local + length content;
    } in
    let job : FlushJob = record { step = step; size_bytes = length content } in
    if saved.lustre_dir then enqueue job saved else saved

-- `torch.save` writes under the final name. No result where the source raises ValueError; the call
-- raises as well where `torch.save` does.
unfoldable pub save_sync_lustre : ℕ → Saving → Manager → Option Manager
save_sync_lustre step (broke part) m =
    if m.lustre_dir
    then some (record m { lustre_files = left_part step part m.lustre_files })
    else none
save_sync_lustre step (wrote content) m =
    if m.lustre_dir
    then some (record m {
      lustre_files = insert step content m.lustre_files;
      bytes_lustre = m.bytes_lustre + length content;
      flush_count = m.flush_count + 1;
    })
    else none

-- Does `self._queue.join()` return at once?
unfoldable pub wait_for_all_flushes : Manager → Bool
wait_for_all_flushes m = leb m.unfinished 0

unfoldable pub shutdown : Manager → Manager
shutdown m = record m { stopped = true }

-- `flush_overlap_pct` of `get_stats`: 1e-6 ms is a nanosecond.
unfoldable pub flush_overlap_pct : Manager → Frac
flush_overlap_pct m = frac (100 * m.flush_write) (m.flush_write + m.flush_block + 1)
