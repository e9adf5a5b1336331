-- ===== src/Scheduler/Jobs.antt =====
-- What a checkpoint of V2 and of V3 counts and saves (tempo/scheduler.py).
use working_tempo.Base.{
  ℕ, ◌+◌, ◌≡◌, ap, sym, subst, if◌then◌else◌, ◌⊎◌, inl, inr, refl, Bool, true, false, not, [], ◌∷◌,
  ◌++◌, ◌≤◌, ◌<◌, length, Bool-cases, Option, none, some, arith, either, if_true, if_false,
}
use working_tempo.Base.Frac.{Frac}
use working_tempo.Checkpoint.{Manager, Saving, wrote, broke, save_async, enqueue, is_full}
use working_tempo.Gain.{Libraries, GainScheduler, FlushPriority, update_step, submit_job, count_job}
use working_tempo.Scheduler.Saves.{IsLeft, save_async-files}
use working_tempo.Scheduler.{
  Scheduler, is_tempo, Answer, local_path, no_path, or_raises, transition, save_staged, checkpoint,
  save_greedy,
}
use working_tempo.Scheduler.Staged.{
  Call, look_ahead, is_defer, step_gain, submit_to, submit, to_recompute, gain_gate, checkpoint_v2,
}

module _ (libs : Libraries) (sqrt : Frac → Frac) where
  pub submit_job-counts :
      (job step now : ℕ) (g : GainScheduler)
      → (submit_job libs job step now g).0.jobs_submitted ≡ g.jobs_submitted + 1
  unfolding submit_job count_job
  submit_job-counts job step now g = ground arith

  -- The scheduler of the gain has counted so many jobs more.
  abbrev pub Counts : ℕ → GainScheduler → Scheduler → Type 0
  Counts more g after =
      (g' : GainScheduler) × (after.svc_gain ≡ some g')
      × (g'.jobs_submitted ≡ g.jobs_submitted + more)

  -- The job of a checkpoint is the last of the queue, or the queue is as it was: without a Lustre
  -- directory, where `max_pending` jobs wait already, and where `torch.save` raised.
  abbrev pub IsQueued : ℕ → Saving → Manager → Manager → Type 0
  IsQueued step (broke part) m after =
      (after.queue ≡ m.queue) × (after.bytes_pending ≡ m.bytes_pending)
  IsQueued step (wrote content) m after =
      (m.lustre_dir ≡ true)
        × (after.queue ≡ m.queue ++ record { step = step; size_bytes = length content } ∷ [])
        × (after.bytes_pending ≡ m.bytes_pending + length content)
      ⊎ ((m.lustre_dir ≡ false) ⊎ (0 < m.max_pending) × (m.max_pending ≤ length m.queue))
        × (after.queue ≡ m.queue)
        × (after.bytes_pending ≡ m.bytes_pending)

  save_async-IsQueued :
      (step : ℕ) (saving : Saving) (m : Manager) → IsQueued step saving m (save_async step saving m)
  unfolding save_async enqueue
  save_async-IsQueued step (broke part) m = (refl, refl)
  save_async-IsQueued step (wrote content) m = elim (Bool-cases m.lustre_dir) [
    | inl on ↦ elim (Bool-cases (is_full m)) [
      | inl full ↦
          let many : (0 < m.max_pending) × (m.max_pending ≤ length m.queue) =
            (ground (arith, full), ground (arith, full)) in
          inr (inr many, ground (arith, on, full), ground (arith, on, full))
      | inr free ↦ inl (on, ground (arith, on, free), ground (arith, on, free))
    ]
    | inr off ↦ inr (inl off, ground (arith, off), ground (arith, off))
  ]

  -- Nothing is saved, or the checkpoint is in the local directory and the queue.
  abbrev pub Stages : Call → Scheduler → Scheduler → Answer → Type 0
  Stages c s after answer =
      (answer ≡ no_path)
        × (after.ckpt_manager ≡ s.ckpt_manager)
        × (after.phase_monitor ≡ s.phase_monitor)
      ⊎ (answer ≡ or_raises c.saving (local_path c.step))
        × (after.ckpt_manager ≡ save_async c.step c.saving s.ckpt_manager)
        × IsLeft c.step c.saving s.ckpt_manager.local_files after.ckpt_manager.local_files
        × IsQueued c.step c.saving s.ckpt_manager after.ckpt_manager

  -- Both, of what a checkpoint leaves and answers.
  pub record IsStaged (c : Call) (g : GainScheduler) (s : Scheduler) (r : Scheduler × Answer)
      : Type 0 where
    pub counts : Counts 1 g r.0
    pub stages : Stages c s r.0 r.1

  -- A job that is submitted, before the checkpoint goes on.
  unfoldable pub submitted : (c : Call) (g : GainScheduler) → Scheduler → Scheduler
  submitted c g s = record s { svc_gain = some (submit_job libs 0 c.step c.submitted_at g).0 }

  pub submit-some :
      (c : Call) (g : GainScheduler) (s : Scheduler)
      → s.svc_gain ≡ some g
      → submit libs sqrt c.step c.submitted_at s
        ≡ (submitted c g s, some (submit_job libs 0 c.step c.submitted_at g).1)
  unfolding submit submit_to submitted
  submit-some c g s e =
      ap (λ (o : Option GainScheduler). submit_to libs sqrt o c.step c.submitted_at s) e

  skipped-IsStaged :
      (c : Call) (g : GainScheduler) (s : Scheduler) → IsStaged c g s (submitted c g s, no_path)
  unfolding submitted
  skipped-IsStaged c g s = record {
    counts = (
      (submit_job libs 0 c.step c.submitted_at g).0,
      refl,
      submit_job-counts 0 c.step c.submitted_at g,
    );
    stages = inl (refl, refl, refl);
  }

  save_staged-IsStaged :
      (c : Call) (g : GainScheduler) (s : Scheduler)
      → IsStaged c g s (save_staged sqrt c.step c.saving c.started_at c.ended_at (submitted c g s))
  unfolding save_staged transition submitted
  save_staged-IsStaged c g s = record {
    counts = (
      (submit_job libs 0 c.step c.submitted_at g).0,
      refl,
      submit_job-counts 0 c.step c.submitted_at g,
    );
    stages = inr (
      refl,
      refl,
      (save_async-files c.step c.saving s.ckpt_manager).0,
      save_async-IsQueued c.step c.saving s.ckpt_manager,
    );
  }

  checkpoint-IsStaged :
      (c : Call) (g : GainScheduler) (s : Scheduler)
      → is_tempo s.mode ≡ true
      → IsStaged c g s (checkpoint sqrt c.step c.saving c.started_at c.ended_at (submitted c g s))
  unfolding checkpoint submitted
  checkpoint-IsStaged c g s e =
      let on : Scheduler × Answer =
        save_staged sqrt c.step c.saving c.started_at c.ended_at (submitted c g s) in
      let off : Scheduler × Answer = save_greedy c.step c.saving (submitted c g s) in
      subst (λ (r : Scheduler × Answer). IsStaged c g s r)
        (sym (if_true (is_tempo s.mode) on off e)) (save_staged-IsStaged c g s)

  -- The final gate, for what the submission answers.
  abbrev decided : Call → Scheduler × Option FlushPriority → Scheduler × Answer
  decided c r =
      if to_recompute libs sqrt r.1
      then (r.0, no_path)
      else checkpoint sqrt c.step c.saving c.started_at c.ended_at r.0

  decided-IsStaged :
      (c : Call) (g : GainScheduler) (s : Scheduler) (p : FlushPriority)
      → is_tempo s.mode ≡ true
      → IsStaged c g s (decided c (submitted c g s, some p))
  decided-IsStaged c g s p e =
      either (λ (r : Scheduler × Answer). IsStaged c g s r) p.recompute_fallback
        (skipped-IsStaged c g s) (checkpoint-IsStaged c g s e)

  gain_gate-IsStaged :
      (c : Call) (g : GainScheduler) (s : Scheduler)
      → is_tempo s.mode ≡ true
      → s.svc_gain ≡ some g
      → IsStaged c g s (gain_gate libs sqrt c s)
  unfolding gain_gate
  gain_gate-IsStaged c g s e has =
      subst (λ (r : Scheduler × Option FlushPriority). IsStaged c g s (decided c r))
        (sym (submit-some c g s has))
        (decided-IsStaged c g s (submit_job libs 0 c.step c.submitted_at g).1 e)

  -- The look-ahead defers, or the gate decides.
  pub ahead-IsStaged :
      (c : Call) (g : GainScheduler) (s : Scheduler) (late : Bool)
      → is_tempo s.mode ≡ true
      → s.svc_gain ≡ some g
      → IsStaged c g s (
          if late
          then ((submit libs sqrt c.step c.submitted_at s).0, no_path)
          else gain_gate libs sqrt c s)
  ahead-IsStaged c g s late e has =
      either (λ (r : Scheduler × Answer). IsStaged c g s r) late
        (subst (λ (r : Scheduler × Option FlushPriority). IsStaged c g s (r.0, no_path))
          (sym (submit-some c g s has)) (skipped-IsStaged c g s))
        (gain_gate-IsStaged c g s e has)

  stepped_gain :
      (c : Call) (g : GainScheduler) (s : Scheduler)
      → s.svc_gain ≡ some g
      → (step_gain c.step s).svc_gain ≡ some (update_step c.step g)
  stepped_gain c g s has =
      ap
        (λ (o : Option GainScheduler). elim o [
          | none ↦ none
          | some gain ↦ some (update_step c.step gain)
        ])
        has

  stepped-IsStaged :
      (c : Call) (g : GainScheduler) (s : Scheduler) (r : Scheduler × Answer)
      → IsStaged c (update_step c.step g) (step_gain c.step s) r
      → IsStaged c g s r
  unfolding update_step
  stepped-IsStaged c g s r h = record { counts = h.counts; stages = h.stages }

  -- In the mode "tempo" and with the gain, a checkpoint of V2 is counted as one job of the gain on every
  -- branch. Either it answers no path, and neither the files, the queue nor the phase change, or the
  -- manager has taken one `save_async`. Where `torch.save` returns, the content is in the local
  -- directory, under the path that is answered, and its job is the last of the queue, with its bytes
  -- pending, unless there is no Lustre directory or the queue is full; where it raises the checkpoint
  -- does, its part is left in the local directory, and the queue is as it was.
  pub checkpoint_v2-IsStaged :
      (c : Call) (g : GainScheduler) (s : Scheduler)
      → is_tempo s.mode ≡ true
      → s.svc_gain ≡ some g
      → IsStaged c g s (checkpoint_v2 libs sqrt c s)
  unfolding checkpoint_v2
  checkpoint_v2-IsStaged c g s e has =
      let stepped = step_gain c.step s in
      let after : Scheduler × Answer =
        if is_defer (look_ahead c.meta stepped)
        then ((submit libs sqrt c.step c.submitted_at stepped).0, no_path)
        else gain_gate libs sqrt c stepped in
      let greedy : Scheduler × Answer =
        checkpoint sqrt c.step c.saving c.started_at c.ended_at stepped in
      subst (λ (r : Scheduler × Answer). IsStaged c g s r)
        (sym (if_false (not (is_tempo s.mode)) greedy after (ap not e)))
        (stepped-IsStaged c g s after (
          ahead-IsStaged c (update_step c.step g) stepped (is_defer (look_ahead c.meta stepped)) e
            (stepped_gain c g s has)))
