-- ===== src/Checkpoint/Origins.antt =====
-- Where the files of the two directories come from (tempo/checkpoint_manager.py).
use working_tempo.Base.{
  ℕ, ◌+◌, ◌<◌, ◌≡◌, ◌⊎◌, inl, inr, refl, sym, subst, Bool, Option, none, some, Option-cases, List,
  [], ◌∷◌, arith, All, length, either,
}
use working_tempo.Base.Dict.{Dict, lookup, insert, All-insert, All-erase, All-lookup}
use working_tempo.Checkpoint.{
  Bytes, FlushJob, Manager, Saving, wrote, broke, left_part, new_manager, enqueue, save_async,
  save_sync_lustre, shutdown,
}
use working_tempo.Checkpoint.Chunks.{End}
use working_tempo.Checkpoint.Flush.{
  Attempt, complete, do_flush, end_flush, taken, take_job, end_round, Op, save, save_sync, take,
  flush, shut_down, apply, run,
}
use working_tempo.Checkpoint.Files.{
  Flushed, no_source, not_opened, broken, interrupted, copied, do_flush-Flushed, with_job-cases,
  idle_takes, take_job-busy, end_round-idle, end_round-busy, no_job, one_job,
}

-- What `torch.save` leaves at a step, as it returns or raises.
abbrev pub Leaves : ℕ × Bytes → ℕ → Saving → Type 0
Leaves file step (wrote content) = (step, content) ≡ file
Leaves file step (broke none) = ⊥
Leaves file step (broke (some part)) = (step, part) ≡ file

abbrev Saves : ℕ × Bytes → Op → Type 0
Saves file (save step saving) = Leaves file step saving
Saves file (save_sync step saving) = Leaves file step saving
Saves file take = ⊥
Saves file (flush a) = ⊥
Saves file shut_down = ⊥

-- One of the calls saves this content at this step.
abbrev pub Saved : ℕ × Bytes → List Op → Type 0
Saved file [] = ⊥
Saved file (op ∷ ops) = Saves file op ⊎ Saved file ops

module _ (P : ℕ × Bytes → Type 0) where
  record IsFrom (m : Manager) : Type 0 where
    chunk : 0 < m.chunk_bytes
    local : All P m.local_files
    lustre : All P m.lustre_files

  Flushed-IsFrom :
      (job : FlushJob) (m : Manager) (r : Manager × End) → IsFrom m → Flushed job m r → IsFrom r.0
  unfolding complete
  Flushed-IsFrom job m r h (no_source gone e) =
      rw e (record { chunk = h.chunk; local = h.local; lustre = h.lustre })
  Flushed-IsFrom job m r h (not_opened e) = rw e h
  Flushed-IsFrom job m r h (broken c pos e) =
      rw e (record { chunk = pos; local = h.local; lustre = h.lustre })
  Flushed-IsFrom job m r h (interrupted c pos e) =
      rw e (record { chunk = pos; local = h.local; lustre = h.lustre })
  Flushed-IsFrom job m r h (copied content c pos found read e) =
      let file = All-lookup P job.step content m.local_files h.local found in
      let moved : P (job.step, c.copied) = rw read file in
      rw e (record {
        chunk = pos;
        local = All-erase P job.step m.local_files h.local;
        lustre = All-insert P job.step c.copied m.lustre_files moved h.lustre;
      })

  enqueue-IsFrom : (job : FlushJob) (m : Manager) → IsFrom m → IsFrom (enqueue job m)
  unfolding enqueue
  enqueue-IsFrom job m h = ground (arith, h.chunk, h.local, h.lustre)

  taken-IsFrom :
      (job : FlushJob) (rest : List FlushJob) (m : Manager) → IsFrom m → IsFrom (taken job rest m)
  taken-IsFrom job rest m h = record { chunk = h.chunk; local = h.local; lustre = h.lustre }

  take_job-IsFrom : (m : Manager) → IsFrom m → IsFrom (take_job m)
  take_job-IsFrom m h = elim (Option-cases m.flushing) [
    | inr (job, busy) ↦ subst IsFrom (sym (take_job-busy m job busy)) h
    | inl idle ↦ subst IsFrom (sym (idle_takes m idle)) (elim (with_job-cases m) [
      | no_job same ↦ rw (same Manager m (λ job rest. taken job rest m)) h
      | one_job job rest full same ↦
          rw (same Manager m (λ j r. taken j r m)) (taken-IsFrom job rest m h)
    ])
  ]

  end_flush-IsFrom :
      (a : Attempt) (job : FlushJob) (m : Manager) → IsFrom m → IsFrom (end_flush a job m)
  unfolding end_flush
  end_flush-IsFrom a job m h =
      let r = Flushed-IsFrom job m (do_flush a job m) h (do_flush-Flushed a job m h.chunk) in
      record { chunk = r.chunk; local = r.local; lustre = r.lustre }

  end_round-IsFrom : (a : Attempt) (m : Manager) → IsFrom m → IsFrom (end_round a m)
  end_round-IsFrom a m h = elim (Option-cases m.flushing) [
    | inl idle ↦ subst IsFrom (sym (end_round-idle a m idle)) h
    | inr (job, busy) ↦
        subst IsFrom (sym (end_round-busy a m job busy)) (end_flush-IsFrom a job m h)
  ]

  left_part-All :
      (step : ℕ) (part : Option Bytes) (files : Dict Bytes)
      → ((file : ℕ × Bytes) → Leaves file step (broke part) → P file)
      → All P files
      → All P (left_part step part files)
  left_part-All step none files p h = h
  left_part-All step (some part) files p h = All-insert P step part files (p _ refl) h

  apply-IsFrom :
      (op : Op) (m : Manager)
      → ((file : ℕ × Bytes) → Saves file op → P file)
      → IsFrom m
      → IsFrom (apply op m)
  unfolding apply save_async save_sync_lustre shutdown
  apply-IsFrom (save step (broke part)) m p h = record {
    chunk = h.chunk;
    local = left_part-All step part m.local_files p h.local;
    lustre = h.lustre;
  }
  apply-IsFrom (save step (wrote content)) m p h =
      let saved : Manager = record m {
        local_files = insert step content m.local_files;
        bytes_local = m.bytes_local + length content;
      } in
      let base : IsFrom saved = record {
        chunk = h.chunk;
        local = All-insert P step content m.local_files (p _ refl) h.local;
        lustre = h.lustre;
      } in
      let job : FlushJob = record { step = step; size_bytes = length content } in
      either (λ x. IsFrom x) m.lustre_dir (enqueue-IsFrom job saved base) base
  apply-IsFrom (save_sync step (broke part)) m p h =
      let lustre = left_part-All step part m.lustre_files p h.lustre in
      ground (arith, h.chunk, h.local, lustre)
  apply-IsFrom (save_sync step (wrote content)) m p h =
      let lustre = All-insert P step content m.lustre_files (p _ refl) h.lustre in
      ground (arith, h.chunk, h.local, lustre)
  apply-IsFrom shut_down m p h = record { chunk = h.chunk; local = h.local; lustre = h.lustre }
  apply-IsFrom take m p h = take_job-IsFrom m h
  apply-IsFrom (flush a) m p h = end_round-IsFrom a m h

  run-IsFrom :
      (ops : List Op) (m : Manager)
      → ((file : ℕ × Bytes) → Saved file ops → P file)
      → IsFrom m
      → IsFrom (run ops m)
  run-IsFrom [] m p h = h
  run-IsFrom (op ∷ ops) m p h =
      run-IsFrom ops (apply op m) (λ file s. p file (inr s))
        (apply-IsFrom op m (λ file s. p file (inl s)) h)

-- With a chunk size of at least one byte, however the calls, the rounds of the worker, the errors of
-- `torch.save` and of the file system and the shutdowns follow one another from empty directories, a
-- file under its final name in the Lustre directory is, byte for byte, what `torch.save` had written
-- for some call at its step as it returned or, of a call that raised, as it raised: no flush, however
-- it ends, leaves a part of its source under the final name.
pub run_complete :
    (lustre monitor : Bool) (max_pending : ℕ) (adaptive : Bool) (chunk : ℕ) (ops : List Op)
    (step : ℕ) (content : Bytes)
    → 0 < chunk
    → lookup step (run ops (new_manager lustre monitor max_pending adaptive chunk)).lustre_files
      ≡ some content
    → Saved (step, content) ops
run_complete lustre monitor max_pending adaptive chunk ops step content pos found =
    let P : ℕ × Bytes → Type 0 = λ file. Saved file ops in
    let start : IsFrom P (new_manager lustre monitor max_pending adaptive chunk) = record {
      chunk = pos;
      local = tt;
      lustre = tt;
    } in
    All-lookup P step content _ (run-IsFrom P ops _ (λ file s. s) start).lustre found
