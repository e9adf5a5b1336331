-- ===== src/Checkpoint/Accounts.antt =====
-- The accounts of the queue and of the pending bytes (tempo/checkpoint_manager.py).
use working_tempo.Base.{
  ℕ, suc, ◌+◌, ◌-◌, ◌≤◌, ◌<◌, ◌≡◌, ◌∙◌, ap, ◌⊎◌, refl, Option, none, some, List, [], ◌∷◌, arith,
  length,
}
use working_tempo.Checkpoint.{FlushJob, Manager}
use working_tempo.Checkpoint.Chunks.{End, done, missing}
use working_tempo.Checkpoint.Flush.{Attempt, complete, do_flush, end_flush, taken, Op, flush, apply}
use working_tempo.Checkpoint.Files.{
  Flushed, no_source, not_opened, broken, interrupted, copied, do_flush-Flushed,
}

-- The bytes of the jobs in the queue.
abbrev pub queued : List FlushJob → ℕ
queued [] = 0
queued (job ∷ jobs) = job.size_bytes + queued jobs

-- One for the job that is being flushed, and its bytes.
abbrev pub open_flushes : Option FlushJob → ℕ
open_flushes none = 0
open_flushes (some job) = 1

abbrev pub in_flight : Option FlushJob → ℕ
in_flight none = 0
in_flight (some job) = job.size_bytes

-- `lost` bytes are counted as pending for jobs that nothing will flush any more.
pub record IsAccounted (limit lost : ℕ) (m : Manager) : Type 0 where
  pub chunk : 0 < m.chunk_bytes
  pub fixed : m.max_pending ≡ limit
  pub bounded : (limit ≡ 0) ⊎ (length m.queue ≤ limit)
  pub open_jobs : m.unfinished ≡ length m.queue + open_flushes m.flushing
  pub pending : m.bytes_pending ≡ queued m.queue + in_flight m.flushing + lost

-- The bytes that a flush leaves in the account though its job is over: an error, or a shutdown
-- during the hard block.
abbrev pub lost_by : FlushJob → End → ℕ
lost_by job done = 0
lost_by job missing = 0
lost_by job _ = job.size_bytes

abbrev pub loss : Op → Manager → ℕ
loss (flush a) m = elim m.flushing [ none ↦ 0 | some job ↦ lost_by job (do_flush a job m).1 ]
loss _ m = 0

abbrev pub losses : List Op → Manager → ℕ
losses [] m = 0
losses (op ∷ ops) m = loss op m + losses ops (apply op m)

-- What a flush leaves alone, and what it takes off the account.
record Settles (job : FlushJob) (m : Manager) (r : Manager × End) : Type 0 where
  chunk : 0 < r.0.chunk_bytes
  limit : r.0.max_pending ≡ m.max_pending
  queue : r.0.queue ≡ m.queue
  open_jobs : r.0.unfinished ≡ m.unfinished
  pending : r.0.bytes_pending ≡ m.bytes_pending - (job.size_bytes - lost_by job r.1)

Flushed-Settles :
    (job : FlushJob) (m : Manager) (r : Manager × End)
    → 0 < m.chunk_bytes
    → Flushed job m r
    → Settles job m r
unfolding complete
Flushed-Settles job m r h (no_source gone e) =
    rw e (record { chunk = h; limit = refl; queue = refl; open_jobs = refl; pending = omega arith })
Flushed-Settles job m r h (not_opened e) =
    rw e (record { chunk = h; limit = refl; queue = refl; open_jobs = refl; pending = omega arith })
Flushed-Settles job m r h (broken c pos e) =
    rw e
      (record { chunk = pos; limit = refl; queue = refl; open_jobs = refl; pending = omega arith })
Flushed-Settles job m r h (interrupted c pos e) =
    rw e
      (record { chunk = pos; limit = refl; queue = refl; open_jobs = refl; pending = omega arith })
Flushed-Settles job m r h (copied content c pos found read e) =
    rw e
      (record { chunk = pos; limit = refl; queue = refl; open_jobs = refl; pending = omega arith })

lost_by-le : (job : FlushJob) (end : End) → lost_by job end ≤ job.size_bytes
lost_by-le job done = omega arith
lost_by-le job missing = omega arith
lost_by-le job _ = omega arith

module _ (limit : ℕ) where
  pub end_flush-IsAccounted :
      (lost : ℕ) (a : Attempt) (job : FlushJob) (m : Manager)
      → m.flushing ≡ some job
      → IsAccounted limit lost m
      → IsAccounted limit (lost + lost_by job (do_flush a job m).1) (end_flush a job m)
  unfolding end_flush
  end_flush-IsAccounted lost a job m full h =
      let r = do_flush a job m in
      let s = Flushed-Settles job m r h.chunk (do_flush-Flushed a job m h.chunk) in
      let one : open_flushes m.flushing ≡ 1 = ap open_flushes full in
      let size : in_flight m.flushing ≡ job.size_bytes = ap in_flight full in
      let len' : length r.0.queue ≡ length m.queue = ap length s.queue in
      let size' : queued r.0.queue ≡ queued m.queue = ap queued s.queue in
      record {
        chunk = s.chunk;
        fixed = s.limit ∙ h.fixed;
        bounded = omega (arith, h.bounded, len');
        open_jobs = omega (arith, h.open_jobs, s.open_jobs, one, len');
        pending = omega (arith, h.pending, s.pending, size, size', lost_by-le job r.1);
      }

  pub taken-IsAccounted :
      (lost : ℕ) (job : FlushJob) (rest : List FlushJob) (m : Manager)
      → m.flushing ≡ none
      → m.queue ≡ job ∷ rest
      → IsAccounted limit lost m
      → IsAccounted limit lost (taken job rest m)
  taken-IsAccounted lost job rest m idle full h =
      let len : length m.queue ≡ suc (length rest) = ap length full in
      let size : queued m.queue ≡ job.size_bytes + queued rest = ap queued full in
      let zero : open_flushes m.flushing ≡ 0 = ap open_flushes idle in
      let nothing : in_flight m.flushing ≡ 0 = ap in_flight idle in
      record {
        chunk = h.chunk;
        fixed = h.fixed;
        bounded = omega (arith, h.bounded, len);
        open_jobs = omega (arith, h.open_jobs, len, zero);
        pending = omega (arith, h.pending, size, nothing);
      }
