-- ===== src/Checkpoint/Drain.antt =====
-- The worker on a queue that is not added to (tempo/checkpoint_manager.py).
use working_tempo.Base.{
  ℕ, suc, ◌≤◌, ◌<◌, ◌≡◌, ◌≢◌, ◌∙◌, sym, ap, subst, ◌⊎◌, inl, inr, refl, true, false, Option, none,
  some, none≢some, Option-cases, List, [], ◌∷◌, arith, Bool-cases, length, All, In, leb, ◌==◌,
  length-eq-zero,
}
use working_tempo.Base.Dict.{
  lookup, insert, erase, lookup-insert_self, lookup-insert_ne, lookup-erase_ne, lookup-erase_self,
  insert-Keyed, erase-Keyed,
}
use working_tempo.Checkpoint.{Bytes, FlushJob, Manager, wait_for_all_flushes}
use working_tempo.Checkpoint.Chunks.{Copy, End, done, missing, halted, failed}
use working_tempo.Checkpoint.Flush.{
  Attempt, after_copy, complete, do_flush, end_flush, taken, flush_worker,
}
use working_tempo.Checkpoint.Copies.{IsSmooth}
use working_tempo.Checkpoint.Files.{
  Flushed, no_source, not_opened, broken, interrupted, copied, do_flush-Flushed, IsTidy,
  queue-cases, flush_worker-empty, flush_worker-takes, flush_worker-busy, do_flush_lem,
}
use working_tempo.Checkpoint.Accounts.{
  IsAccounted, taken-IsAccounted, end_flush-IsAccounted, lost_by, queued, open_flushes, in_flight,
}

-- An attempt that meets no error and no shutdown.
pub record IsSuccess (a : Attempt) : Type 0 where
  pub opens : a.opens ≡ true
  pub renames : a.renames ≡ true
  pub smooth : (i : ℕ) → IsSmooth (a.rounds i)

abbrev pub steps : List FlushJob → List ℕ
steps [] = []
steps (job ∷ jobs) = job.step ∷ steps jobs

-- The content is still to be flushed, from the local directory, or it is flushed.
abbrev Awaits : ℕ → Bytes → List ℕ → Manager → Type 0
Awaits step content waiting m =
    In step waiting × (lookup step m.local_files ≡ some content)
    ⊎ (lookup step m.local_files ≡ none) × (lookup step m.lustre_files ≡ some content)

abbrev Ends : End → Type 0
Ends end = (end ≡ done) ⊎ (end ≡ missing)

do_flush-Ends :
    (a : Attempt) (job : FlushJob) (m : Manager)
    → IsSuccess a
    → IsTidy m
    → 0 < m.chunk_bytes
    → Ends (do_flush a job m).1
unfolding do_flush
do_flush-Ends a job m s t h = elim (Option-cases (lookup job.step m.local_files)) [
  | inl gone ↦ rw (gone, do_flush) (inr refl)
  | inr (content, found) ↦
      inl
        (do_flush_lem a job content (suc job.step) m h t found s.opens s.renames s.smooth
          (omega arith)).0
]

-- A flush that succeeds.
record Advances (step : ℕ) (content : Bytes) (job : FlushJob) (waiting : List ℕ) (m : Manager)
    (r : Manager × End) : Type 0 where
  goes : r.0.stopped ≡ m.stopped
  queue : r.0.queue ≡ m.queue
  tidy : IsTidy r.0
  loss : lost_by job r.1 ≡ 0
  awaits : Awaits step content (job.step ∷ waiting) m → Awaits step content waiting r.0

not_failed : (n : Manager) (r : Manager × End) → r ≡ (n, failed) → Ends r.1 → ⊥
not_failed n r e (inl x) = absurd cc
not_failed n r e (inr x) = absurd cc

not_halted : (n : Manager) (r : Manager × End) → r ≡ (n, halted) → Ends r.1 → ⊥
not_halted n r e (inl x) = absurd cc
not_halted n r e (inr x) = absurd cc

-- The files of a step, as its own flush or another one has ended.
copied-Awaits :
    (step : ℕ) (content old : Bytes) (job : FlushJob) (waiting : List ℕ) (c : Copy) (m : Manager)
    → IsTidy m
    → lookup job.step m.local_files ≡ some old
    → c.copied ≡ old
    → Awaits step content (job.step ∷ waiting) m
    → Awaits step content waiting (complete job c (after_copy job.step c m))
unfolding complete
copied-Awaits step content old job waiting c m t found read w =
    elim (Bool-cases (step == job.step)) [
      | inl same ↦
          let e : step ≡ job.step = ground (arith, same) in
          let here : lookup step m.local_files ≡ some old =
            ap (λ s. lookup s m.local_files) e ∙ found in
          let its : some old ≡ some content = elim w [
            | inl held ↦ sym here ∙ held.1
            | inr moved ↦ absurd (none≢some (sym moved.0 ∙ here))
          ] in
          inr (
            ap (λ s. lookup s (erase job.step m.local_files)) e
                ∙ lookup-erase_self job.step m.local_files t.local,
            ap (λ s. lookup s (insert job.step c.copied m.lustre_files)) e
                ∙ lookup-insert_self job.step c.copied m.lustre_files
                ∙ ap some read
                ∙ its,
          )
      | inr other ↦
          let ne : step ≢ job.step = ground (arith, other) in
          let here = lookup-erase_ne step job.step m.local_files ne in
          let there = lookup-insert_ne step job.step c.copied m.lustre_files ne in
          elim w [
            | inl (inl e, held) ↦ absurd (ne e)
            | inl (inr later, held) ↦ inl (later, here ∙ held)
            | inr moved ↦ inr (here ∙ moved.0, there ∙ moved.1)
          ]
    ]

Flushed-Advances :
    (step : ℕ) (content : Bytes) (job : FlushJob) (waiting : List ℕ) (m : Manager)
    (r : Manager × End)
    → IsTidy m
    → Flushed job m r
    → Ends r.1
    → Advances step content job waiting m r
unfolding complete
Flushed-Advances step content job waiting m r t (no_source gone e) ok = rw e (record {
  goes = refl;
  queue = refl;
  tidy = record { local = t.local; lustre = t.lustre; temp = t.temp };
  loss = refl;
  awaits = λ w. elim w [
    | inl (inl here, found) ↦
        absurd (none≢some (sym gone ∙ sym (ap (λ s. lookup s m.local_files) here) ∙ found))
    | inl (inr later, found) ↦ inl (later, found)
    | inr moved ↦ inr moved
  ];
})
Flushed-Advances step content job waiting m r t (not_opened e) ok = absurd (not_failed _ r e ok)
Flushed-Advances step content job waiting m r t (broken c pos e) ok = absurd (not_failed _ r e ok)
Flushed-Advances step content job waiting m r t (interrupted c pos e) ok =
    absurd (not_halted _ r e ok)
Flushed-Advances step content job waiting m r t (copied old c pos found read e) ok = rw e (record {
  goes = refl;
  queue = refl;
  tidy = record {
    local = erase-Keyed _ _ t.local;
    lustre = insert-Keyed _ _ _ t.lustre;
    temp = erase-Keyed _ _ (insert-Keyed _ _ _ t.temp);
  };
  loss = refl;
  awaits = copied-Awaits step content old job waiting c m t found read;
})

-- The worker's rounds, one for each attempt.
abbrev pub drain : List Attempt → Manager → Manager
drain [] m = m
drain (a ∷ attempts) m = drain attempts (flush_worker a m)

-- The job that is being flushed, and those of the queue.
abbrev pub open_with : Option FlushJob → List FlushJob → List FlushJob
open_with none queue = queue
open_with (some job) queue = job ∷ queue

abbrev pub open_jobs : Manager → List FlushJob
open_jobs m = open_with m.flushing m.queue

-- What holds of the manager before each round of the drain.
record IsDraining (limit lost step : ℕ) (content : Bytes) (m : Manager) : Type 0 where
  accounts : IsAccounted limit lost m
  tidy : IsTidy m
  goes : m.stopped ≡ false
  awaits : Awaits step content (steps (open_jobs m)) m

end_flush-IsDraining :
    (limit lost step : ℕ) (content : Bytes) (a : Attempt) (job : FlushJob) (m : Manager)
    → IsSuccess a
    → m.flushing ≡ some job
    → IsDraining limit lost step content m
    → IsDraining limit lost step content (end_flush a job m)
      × (open_jobs (end_flush a job m) ≡ m.queue)
unfolding end_flush
end_flush-IsDraining limit lost step content a job m s busy h =
    let r = do_flush a job m in
    let f = do_flush-Flushed a job m h.accounts.chunk in
    let adv =
      Flushed-Advances step content job (steps m.queue) m r h.tidy f
        (do_flush-Ends a job m s h.tidy h.accounts.chunk) in
    let w : Awaits step content (job.step ∷ steps m.queue) m =
      subst (λ (o : Option FlushJob). Awaits step content (steps (open_with o m.queue)) m) busy
        h.awaits in
    let acc = end_flush-IsAccounted limit lost a job m busy h.accounts in
    (
      record {
        accounts =
            subst (λ n. IsAccounted limit n (end_flush a job m)) (omega (arith, adv.loss)) acc;
        tidy = record { local = adv.tidy.local; lustre = adv.tidy.lustre; temp = adv.tidy.temp };
        goes = adv.goes ∙ h.goes;
        awaits =
            subst (λ (q : List FlushJob). Awaits step content (steps q) r.0) (sym adv.queue)
              (adv.awaits w);
      },
      adv.queue,
    )

taken-IsDraining :
    (limit lost step : ℕ) (content : Bytes) (job : FlushJob) (rest : List FlushJob) (m : Manager)
    → m.flushing ≡ none
    → m.queue ≡ job ∷ rest
    → IsDraining limit lost step content m
    → IsDraining limit lost step content (taken job rest m)
taken-IsDraining limit lost step content job rest m idle full h = record {
  accounts = taken-IsAccounted limit lost job rest m idle full h.accounts;
  tidy = record { local = h.tidy.local; lustre = h.tidy.lustre; temp = h.tidy.temp };
  goes = h.goes;
  awaits =
      subst (λ (q : List FlushJob). Awaits step content (steps q) m)
        (ap (λ (o : Option FlushJob). open_with o m.queue) idle ∙ full) h.awaits;
}

abbrev Drained : ℕ → ℕ → ℕ → Bytes → Manager → Type 0
Drained limit lost step content m = IsDraining limit lost step content m × (open_jobs m ≡ [])

-- A round from a state with an open job: it ends that job, or the first one of the queue.
drain_step :
    (limit lost step : ℕ) (content : Bytes) (a : Attempt) (attempts : List Attempt) (job : FlushJob)
    (m n : Manager)
    → IsSuccess a
    → n.flushing ≡ some job
    → flush_worker a m ≡ end_flush a job n
    → length (open_jobs n) ≤ suc (length attempts)
    → IsDraining limit lost step content n
    → ((p : Manager)
        → length (open_jobs p) ≤ length attempts
        → IsDraining limit lost step content p
        → Drained limit lost step content (drain attempts p))
    → Drained limit lost step content (drain attempts (flush_worker a m))
drain_step limit lost step content a attempts job m n s busy one le h go_on =
    let next = end_flush-IsDraining limit lost step content a job n s busy h in
    let len : length (open_jobs n) ≡ suc (length n.queue) =
      ap (λ (o : Option FlushJob). length (open_with o n.queue)) busy in
    let after : length (open_jobs (end_flush a job n)) ≡ length n.queue = ap length next.1 in
    subst (λ (p : Manager). Drained limit lost step content (drain attempts p)) (sym one)
      (go_on (end_flush a job n) (omega (arith, le, len, after)) next.0)

drain-IsDraining :
    (limit lost step : ℕ) (content : Bytes) (attempts : List Attempt) (m : Manager)
    → All IsSuccess attempts
    → length (open_jobs m) ≤ length attempts
    → IsDraining limit lost step content m
    → Drained limit lost step content (drain attempts m)
drain-IsDraining limit lost step content [] m s le h =
    (h, length-eq-zero (open_jobs m) (omega arith))
drain-IsDraining limit lost step content (a ∷ attempts) m s le h =
    let go_on =
      λ (p : Manager) (short : length (open_jobs p) ≤ length attempts)
          (d : IsDraining limit lost step content p).
        drain-IsDraining limit lost step content attempts p s.1 short d in
    elim (Option-cases m.flushing) [
      | inr (job, busy) ↦
          drain_step limit lost step content a attempts job m m s.0 busy
            (flush_worker-busy a m job busy) le h go_on
      | inl idle ↦ elim (queue-cases m.queue) [
        | inl empty ↦
            let same = flush_worker-empty a m h.goes idle empty in
            let none_open : length (open_jobs m) ≡ 0 =
              ap (λ (o : Option FlushJob). length (open_with o m.queue)) idle ∙ ap length empty in
            subst (λ (p : Manager). Drained limit lost step content (drain attempts p)) (sym same)
              (go_on m (omega (arith, none_open)) h)
        | inr (job, rest, full) ↦
            let same : length (open_jobs m) ≡ length (job ∷ rest) =
              ap (λ (o : Option FlushJob). length (open_with o m.queue)) idle ∙ ap length full in
            drain_step limit lost step content a attempts job m (taken job rest m) s.0 refl
              (flush_worker-takes a m job rest h.goes idle full) (omega (arith, le, same))
              (taken-IsDraining limit lost step content job rest m idle full h) go_on
      ]
    ]

no_open : (o : Option FlushJob) (q : List FlushJob) → open_with o q ≡ [] → (o ≡ none) × (q ≡ [])
no_open none q e = (refl, e)
no_open (some job) q e = absurd (let bad : length (job ∷ q) ≡ 0 = ap length e in omega (arith, bad))

-- From a worker that is not stopped, with the accounts and the directories in order, a round for the
-- job that is being flushed and for each of the queue, and no error, every checkpoint of these jobs
-- whose local file is there is flushed: the queue is empty, nothing waits any more, the file under the
-- final name has the bytes of the local one, which is gone, and only the bytes lost before are still
-- counted as pending.
pub drain_lem :
    (limit lost step : ℕ) (content : Bytes) (attempts : List Attempt) (m : Manager)
    → IsAccounted limit lost m
    → IsTidy m
    → m.stopped ≡ false
    → All IsSuccess attempts
    → length (open_jobs m) ≤ length attempts
    → In step (steps (open_jobs m))
    → lookup step m.local_files ≡ some content
    → let after = drain attempts m in
      (after.queue ≡ [])
      × (wait_for_all_flushes after ≡ true)
      × (lookup step after.lustre_files ≡ some content)
      × (lookup step after.local_files ≡ none)
      × (after.bytes_pending ≡ lost)
unfolding wait_for_all_flushes
drain_lem limit lost step content attempts m acc t go s le waits found =
    let start : IsDraining limit lost step content m = record {
      accounts = acc;
      tidy = t;
      goes = go;
      awaits = inl (waits, found);
    } in
    let after = drain attempts m in
    let (d, empty) = drain-IsDraining limit lost step content attempts m s le start in
    let (idle, no_queue) = no_open after.flushing after.queue empty in
    let files : (lookup step after.local_files ≡ none)
        × (lookup step after.lustre_files ≡ some content) =
      elim d.awaits [
        | inl still ↦ absurd (subst (λ (q : List FlushJob). In step (steps q)) empty still.0)
        | inr moved ↦ moved
      ] in
    let none_left : length after.queue ≡ 0 = ap length no_queue in
    let none_open : open_flushes after.flushing ≡ 0 = ap open_flushes idle in
    let left : after.unfinished ≡ 0 = omega (arith, d.accounts.open_jobs, none_left, none_open) in
    let bytes : queued after.queue ≡ 0 = ap queued no_queue in
    let nothing : in_flight after.flushing ≡ 0 = ap in_flight idle in
    (
      no_queue,
      ap (λ n. leb n 0) left,
      files.1,
      files.0,
      omega (arith, d.accounts.pending, bytes, nothing),
    )
