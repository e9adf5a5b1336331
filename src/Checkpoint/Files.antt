-- ===== src/Checkpoint/Files.antt =====
-- The files that `_do_flush` and the worker leave (tempo/checkpoint_manager.py).
use working_tempo.Base.{
  ℕ, ◌+◌, ◌-◌, ◌<◌, ◌≡◌, ◌∙◌, ap, ◌≢◌, ◌⊎◌, inl, inr, refl, true, false, Option, none, some,
  Option-cases, List, [], ◌∷◌, Bool-cases, length,
}
use working_tempo.Base.Dict.{
  Keyed, lookup, lookup-insert_self, lookup-insert_ne, insert-Keyed, lookup-erase_ne,
  lookup-erase_self,
}
use working_tempo.Checkpoint.{Bytes, FlushJob, Manager}
use working_tempo.Checkpoint.Chunks.{Copy, End, done, missing, halted, failed, running}
use working_tempo.Checkpoint.Flush.{
  Attempt, copy_file, after_copy, complete, finish, do_flush, with_job, end_flush, taken, take_job,
  end_round, flush_worker,
}
use working_tempo.Checkpoint.Copies.{IsSmooth, IsCopy, copy_file-IsCopy, copy_file-done}

abbrev pub missed : FlushJob → Manager → Manager
missed job m = record m { bytes_pending = m.bytes_pending - job.size_bytes }

-- The ways in which a flush ends.
pub data Flushed (job : FlushJob) (m : Manager) (r : Manager × End) : Type 0 where
  no_source : lookup job.step m.local_files ≡ none → r ≡ (missed job m, missing) → Flushed job m r
  not_opened : r ≡ (m, failed) → Flushed job m r
  broken : (c : Copy) → 0 < c.chunk_bytes → r ≡ (after_copy job.step c m, failed) → Flushed job m r
  interrupted :
      (c : Copy)
      → 0 < c.chunk_bytes
      → r ≡ (record (after_copy job.step c m) { stopped = true }, halted)
      → Flushed job m r
  copied :
      (content : Bytes) (c : Copy)
      → 0 < c.chunk_bytes
      → lookup job.step m.local_files ≡ some content
      → c.copied ≡ content
      → r ≡ (complete job c (after_copy job.step c m), done)
      → Flushed job m r

finish-Flushed :
    (a : Attempt) (job : FlushJob) (content : Bytes) (m : Manager) (r : Copy × End)
    → lookup job.step m.local_files ≡ some content
    → IsCopy content m.chunk_bytes r
    → Flushed job m (finish a job r m)
unfolding finish
finish-Flushed a job content m (c, done) h k = elim (Bool-cases a.renames) [
  | inl good ↦
      let read : c.copied ≡ content = elim k.complete [ inl bad ↦ absurd (bad refl) | inr e ↦ e ] in
      copied content c k.chunk_pos h read (rw (finish, good) refl)
  | inr bad ↦ broken c k.chunk_pos (rw (finish, bad) refl)
]
finish-Flushed a job content m (c, halted) h k = interrupted c k.chunk_pos refl
finish-Flushed a job content m (c, failed) h k = broken c k.chunk_pos refl
finish-Flushed a job content m (c, missing) h k = absurd (k.found refl)
finish-Flushed a job content m (c, running) h k = absurd (k.ended refl)

pub do_flush-Flushed :
    (a : Attempt) (job : FlushJob) (m : Manager)
    → 0 < m.chunk_bytes
    → Flushed job m (do_flush a job m)
unfolding do_flush
do_flush-Flushed a job m h = elim (Option-cases (lookup job.step m.local_files)) [
  | inl gone ↦ no_source gone (rw (gone, do_flush) refl)
  | inr (content, found) ↦ elim (Bool-cases a.opens) [
    | inl good ↦
        rw (found, do_flush, good)
          (finish-Flushed a job content m (copy_file a content m) found
            (copy_file-IsCopy a content m h))
    | inr bad ↦ not_opened (rw (found, do_flush, bad) refl)
  ]
]

-- A round of the worker takes the first job, or none.
pub data Taken (m : Manager) : Type 1 where
  no_job : ((A : Type 0) (x : A) (f : FlushJob → List FlushJob → A) → with_job m x f ≡ x) → Taken m
  one_job :
      (job : FlushJob) (rest : List FlushJob)
      → m.queue ≡ job ∷ rest
      → ((A : Type 0) (x : A) (f : FlushJob → List FlushJob → A) → with_job m x f ≡ f job rest)
      → Taken m

pub queue-cases :
    (q : List FlushJob) → (q ≡ []) ⊎ ((job : FlushJob) × (rest : List FlushJob) × (q ≡ job ∷ rest))
queue-cases [] = inl refl
queue-cases (job ∷ rest) = inr (job, rest, refl)

pub with_job-takes :
    {A : Type 0} (m : Manager) (x : A) (f : FlushJob → List FlushJob → A) (job : FlushJob)
    (rest : List FlushJob)
    → m.stopped ≡ false
    → m.queue ≡ job ∷ rest
    → with_job m x f ≡ f job rest
with_job-takes m x f job rest go full = rw (go, full, with_job) refl

pub with_job-empty :
    {A : Type 0} (m : Manager) (x : A) (f : FlushJob → List FlushJob → A)
    → m.stopped ≡ false
    → m.queue ≡ []
    → with_job m x f ≡ x
with_job-empty m x f go empty = rw (go, empty, with_job) refl

pub with_job-cases : (m : Manager) → Taken m
with_job-cases m = elim (Bool-cases m.stopped) [
  | inl stop ↦ no_job (λ A x f. rw (stop, with_job) refl)
  | inr go ↦ elim (queue-cases m.queue) [
    | inl empty ↦ no_job (λ A x f. with_job-empty m x f go empty)
    | inr (job, rest, full) ↦ one_job job rest full (λ A x f. with_job-takes m x f job rest go full)
  ]
]

-- A worker that flushes nothing takes the first job.
pub idle_takes :
    (m : Manager) → m.flushing ≡ none → take_job m ≡ with_job m m (λ job rest. taken job rest m)
unfolding take_job
idle_takes m idle =
    ap
      (λ (o : Option FlushJob). elim o [
        | some _ ↦ m
        | none ↦ with_job m m (λ job rest. taken job rest m)
      ])
      idle

pub take_job-busy : (m : Manager) (job : FlushJob) → m.flushing ≡ some job → take_job m ≡ m
unfolding take_job
take_job-busy m job busy =
    ap
      (λ (o : Option FlushJob). elim o [
        | some _ ↦ m
        | none ↦ with_job m m (λ job rest. taken job rest m)
      ])
      busy

pub end_round-busy :
    (a : Attempt) (m : Manager) (job : FlushJob)
    → m.flushing ≡ some job
    → end_round a m ≡ end_flush a job m
unfolding end_round
end_round-busy a m job busy =
    ap (λ (o : Option FlushJob). elim o [ none ↦ m | some j ↦ end_flush a j m ]) busy

pub end_round-idle : (a : Attempt) (m : Manager) → m.flushing ≡ none → end_round a m ≡ m
unfolding end_round
end_round-idle a m idle =
    ap (λ (o : Option FlushJob). elim o [ none ↦ m | some job ↦ end_flush a job m ]) idle

pub flush_worker-empty :
    (a : Attempt) (m : Manager)
    → m.stopped ≡ false
    → m.flushing ≡ none
    → m.queue ≡ []
    → flush_worker a m ≡ m
unfolding flush_worker
flush_worker-empty a m go idle empty =
    ap (end_round a)
      (idle_takes m idle ∙ with_job-empty m m (λ job rest. taken job rest m) go empty)
    ∙ end_round-idle a m idle

pub flush_worker-takes :
    (a : Attempt) (m : Manager) (job : FlushJob) (rest : List FlushJob)
    → m.stopped ≡ false
    → m.flushing ≡ none
    → m.queue ≡ job ∷ rest
    → flush_worker a m ≡ end_flush a job (taken job rest m)
unfolding flush_worker end_round
flush_worker-takes a m job rest go idle full =
    ap (end_round a)
      (idle_takes m idle ∙ with_job-takes m m (λ job rest. taken job rest m) job rest go full)

pub flush_worker-busy :
    (a : Attempt) (m : Manager) (job : FlushJob)
    → m.flushing ≡ some job
    → flush_worker a m ≡ end_flush a job m
unfolding flush_worker
flush_worker-busy a m job busy =
    ap (end_round a) (take_job-busy m job busy) ∙ end_round-busy a m job busy

-- Each directory has a name once.
pub record IsTidy (m : Manager) : Type 0 where
  pub local : Keyed m.local_files
  pub lustre : Keyed m.lustre_files
  pub temp : Keyed m.temp_files

-- With a chunk size of at least one byte and a name at most once in each directory, a flush of a job
-- whose local file is there, which meets no error and no shutdown, leaves under the final name exactly
-- the bytes of the local file, to whatever sizes the chunks are adapted; the local file and the `.tmp`
-- file are gone, the files of other steps are as they were, and the statistics count the file once.
pub do_flush_lem :
    (a : Attempt) (job : FlushJob) (content : Bytes) (other : ℕ) (m : Manager)
    → 0 < m.chunk_bytes
    → IsTidy m
    → lookup job.step m.local_files ≡ some content
    → a.opens ≡ true
    → a.renames ≡ true
    → ((i : ℕ) → IsSmooth (a.rounds i))
    → other ≢ job.step
    → let (after, end) = do_flush a job m in
      (end ≡ done)
      × (lookup job.step after.lustre_files ≡ some content)
      × (lookup job.step after.local_files ≡ none)
      × (lookup job.step after.temp_files ≡ none)
      × (lookup other after.lustre_files ≡ lookup other m.lustre_files)
      × (lookup other after.local_files ≡ lookup other m.local_files)
      × (lookup other after.temp_files ≡ lookup other m.temp_files)
      × (after.bytes_lustre ≡ m.bytes_lustre + length content)
      × (after.bytes_pending ≡ m.bytes_pending - job.size_bytes)
      × (after.flush_count ≡ m.flush_count + 1)
unfolding do_flush finish complete
do_flush_lem a job content other m h t found opens renames smooth ne =
    let r = copy_file a content m in
    let end : r.1 ≡ done = copy_file-done a content m h smooth in
    let read : r.0.copied ≡ content = elim (copy_file-IsCopy a content m h).complete [
      | inl bad ↦ absurd (bad end)
      | inr e ↦ e
    ] in
    let temp = insert-Keyed job.step r.0.copied m.temp_files t.temp in
    rw (found, do_flush, opens, finish, end, renames)
      (
        refl,
        lookup-insert_self job.step r.0.copied m.lustre_files ∙ ap some read,
        lookup-erase_self job.step m.local_files t.local,
        lookup-erase_self job.step _ temp,
        lookup-insert_ne other job.step r.0.copied m.lustre_files ne,
        lookup-erase_ne other job.step m.local_files ne,
        lookup-erase_ne other job.step _ ne
            ∙ lookup-insert_ne other job.step r.0.copied m.temp_files ne,
        ap (λ (b : Bytes). m.bytes_lustre + length b) read,
        refl,
        refl,
      )
