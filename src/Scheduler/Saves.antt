-- ===== src/Scheduler/Saves.antt =====
-- Where `checkpoint` of V1 saves, and what a shutdown leaves (tempo/scheduler.py).
use working_tempo.Base.{
  ℕ, ◌+◌, ◌≤◌, ◌≡◌, ◌∙◌, ap, sym, subst, ◌⊎◌, inl, inr, refl, true, false, not, Option, none, some,
  List, [], ◌∷◌, arith, Bool-cases, if_true, if_false, All, In, length,
}
use working_tempo.Base.Frac.{Frac}
use working_tempo.Base.Dict.{Dict, lookup, insert, lookup-insert_self}
use working_tempo.Phase.{
  TrainingPhase, idle, nccl_comm, checkpoint as checkpointing, same_phase, set_phase,
}
use working_tempo.Phase.Gate.{IsGated, set_phase-IsGated, set_phase-phase}
use working_tempo.Checkpoint.{
  Bytes, Manager, enqueue, Saving, wrote, broke, left_part, save_async, save_sync_lustre,
  wait_for_all_flushes,
}
use working_tempo.Checkpoint as Ckpt
use working_tempo.Checkpoint.Flush.{Attempt, flush_worker}
use working_tempo.Checkpoint.Accounts.{IsAccounted}
use working_tempo.Checkpoint.Files.{IsTidy}
use working_tempo.Checkpoint.Drain.{IsSuccess, steps, open_jobs, drain, drain_lem}
use working_tempo.Scheduler.{
  is_tempo, Scheduler, Answer, local_path, lustre_path, raises, or_raises, transition, save_staged,
  save_greedy, checkpoint, work, shutdown,
}

-- The files with the content at its step, or with what a `torch.save` that raises leaves.
abbrev pub IsLeft : ℕ → Saving → Dict Bytes → Dict Bytes → Type 0
IsLeft step (wrote content) before after = lookup step after ≡ some content
IsLeft step (broke part) before after = after ≡ left_part step part before

-- What a checkpoint of V1 does, by the mode.
abbrev pub Saves : ℕ → Saving → Scheduler → Scheduler → Answer → Type 0
Saves step saving s after answer =
    (is_tempo s.mode ≡ true)
      × (answer ≡ or_raises saving (local_path step))
      × IsLeft step saving s.ckpt_manager.local_files after.ckpt_manager.local_files
      × (after.ckpt_manager.lustre_files ≡ s.ckpt_manager.lustre_files)
      × (after.phase_monitor.phase ≡ idle)
      × (after.phase_monitor.io_allowed ≡ true)
    ⊎ (is_tempo s.mode ≡ false)
      × (s.lustre_dir ≡ true)
      × (answer ≡ or_raises saving (lustre_path step))
      × IsLeft step saving s.ckpt_manager.lustre_files after.ckpt_manager.lustre_files
      × (after.ckpt_manager.local_files ≡ s.ckpt_manager.local_files)
      × (after.phase_monitor ≡ s.phase_monitor)
    ⊎ (is_tempo s.mode ≡ false) × (s.lustre_dir ≡ false) × (answer ≡ raises) × (after ≡ s)

pub save_async-files :
    (step : ℕ) (saving : Saving) (m : Manager)
    → IsLeft step saving m.local_files (save_async step saving m).local_files
      × ((save_async step saving m).lustre_files ≡ m.lustre_files)
unfolding save_async enqueue
save_async-files step (broke part) m = (refl, refl)
save_async-files step (wrote content) m =
    ground (arith, lookup-insert_self step content m.local_files)

-- The manager behind a checkpoint that is written to the Lustre directory directly.
abbrev written : ℕ → Saving → Manager → Manager
written step (broke part) m = record m { lustre_files = left_part step part m.lustre_files }
written step (wrote content) m = record m {
  lustre_files = insert step content m.lustre_files;
  bytes_lustre = m.bytes_lustre + length content;
  flush_count = m.flush_count + 1;
}

save_sync-written :
    (step : ℕ) (saving : Saving) (m : Manager)
    → m.lustre_dir ≡ true
    → save_sync_lustre step saving m ≡ some (written step saving m)
unfolding save_sync_lustre
save_sync-written step (broke part) m on =
    if_true m.lustre_dir (some (written step (broke part) m)) none on
save_sync-written step (wrote content) m on =
    if_true m.lustre_dir (some (written step (wrote content) m)) none on

written-files :
    (step : ℕ) (saving : Saving) (m : Manager)
    → IsLeft step saving m.lustre_files (written step saving m).lustre_files
      × ((written step saving m).local_files ≡ m.local_files)
written-files step (broke part) m = (refl, refl)
written-files step (wrote content) m = (lookup-insert_self step content m.lustre_files, refl)

greedy_refused :
    (step : ℕ) (saving : Saving) (s : Scheduler)
    → s.lustre_dir ≡ false
    → save_greedy step saving s ≡ (s, raises)
unfolding save_greedy
greedy_refused step saving s off = if_true (not s.lustre_dir) _ _ (ap not off)

greedy_written :
    (step : ℕ) (saving : Saving) (s : Scheduler)
    → s.lustre_dir ≡ true
    → s.ckpt_manager.lustre_dir ≡ true
    → save_greedy step saving s ≡ (
      record s { ckpt_manager = written step saving s.ckpt_manager },
      or_raises saving (lustre_path step),
    )
unfolding save_greedy
greedy_written step saving s on dir =
    if_false (not s.lustre_dir) _ _ (ap not on)
    ∙ ap
        (λ (o : Option Manager). elim o [
          | none ↦ (s, raises)
          | some manager ↦
              (record s { ckpt_manager = manager }, or_raises saving (lustre_path step))
        ])
        (save_sync-written step saving s.ckpt_manager dir)

greedy-Saves :
    (step : ℕ) (saving : Saving) (s : Scheduler)
    → s.lustre_dir ≡ s.ckpt_manager.lustre_dir
    → is_tempo s.mode ≡ false
    → let (after, answer) = save_greedy step saving s in Saves step saving s after answer
greedy-Saves step saving s same e = elim (Bool-cases s.lustre_dir) [
  | inl on ↦
      let files = written-files step saving s.ckpt_manager in
      subst (λ (r : Scheduler × Answer). Saves step saving s r.0 r.1)
        (sym (greedy_written step saving s on (sym same ∙ on)))
        (inr (inl (e, on, refl, files.0, files.1, refl)))
  | inr off ↦
      subst (λ (r : Scheduler × Answer). Saves step saving s r.0 r.1)
        (sym (greedy_refused step saving s off)) (inr (inr (e, off, refl, refl)))
]

module _ (sqrt : Frac → Frac) where
  staged-Saves :
      (step : ℕ) (saving : Saving) (start end : ℕ) (s : Scheduler)
      → is_tempo s.mode ≡ true
      → IsGated s.phase_monitor
      → let (after, answer) = save_staged sqrt step saving start end s in
        Saves step saving s after answer
  unfolding save_staged transition
  staged-Saves step saving start end s e h =
      let files = save_async-files step saving s.ckpt_manager in
      let m = set_phase checkpointing start s.phase_monitor in
      let gated =
        set_phase-IsGated idle end m (set_phase-IsGated checkpointing start s.phase_monitor h) in
      let phase = set_phase-phase idle end m in
      let free = gated.gate ∙ ap (λ (p : TrainingPhase). not (same_phase p nccl_comm)) phase in
      inl (e, refl, files.0, files.1, phase, free)

  -- Where the scheduler and its manager agree on the Lustre directory and the gate on the phase: in the
  -- mode "tempo" a checkpoint is written to the local directory alone, and behind it, also where
  -- `torch.save` raises, the phase is IDLE and I/O is allowed; in the mode "baseline" it is written to
  -- the Lustre directory alone, without a phase, and where there is no such directory it raises and
  -- changes nothing. The path is answered where `torch.save` returns; where it raises the call does, and
  -- what it has written, if it has opened the file, is left under the file's name.
  pub checkpoint-Saves :
      (step : ℕ) (saving : Saving) (start end : ℕ) (s : Scheduler)
      → s.lustre_dir ≡ s.ckpt_manager.lustre_dir
      → IsGated s.phase_monitor
      → let (after, answer) = checkpoint sqrt step saving start end s in
        Saves step saving s after answer
  unfolding checkpoint
  checkpoint-Saves step saving start end s same h = elim (Bool-cases (is_tempo s.mode)) [
    | inl e ↦
        rw
          (if_true (is_tempo s.mode) (save_staged sqrt step saving start end s)
            (save_greedy step saving s) e)
          (staged-Saves step saving start end s e h)
    | inr e ↦
        rw
          (if_false (is_tempo s.mode) (save_staged sqrt step saving start end s)
            (save_greedy step saving s) e)
          (greedy-Saves step saving s same e)
  ]

work-drain : (attempts : List Attempt) (m : Manager) → work attempts m ≡ drain attempts m
work-drain [] m = refl
work-drain (a ∷ attempts) m = work-drain attempts (flush_worker a m)

-- A shutdown that waits loses nothing: with the accounts and the directories in order, where the worker
-- is not stopped before, meets no error and has a round for the job that it is flushing and for each
-- of the queue, each checkpoint of these jobs whose local file is there is in the Lustre directory
-- behind it, the worker is stopped, no job is left in the queue, and only the bytes lost before are
-- still counted as pending.
pub shutdown_lem :
    (limit lost step : ℕ) (content : Bytes) (attempts : List Attempt) (s : Scheduler)
    → IsAccounted limit lost s.ckpt_manager
    → IsTidy s.ckpt_manager
    → s.ckpt_manager.stopped ≡ false
    → All IsSuccess attempts
    → length (open_jobs s.ckpt_manager) ≤ length attempts
    → In step (steps (open_jobs s.ckpt_manager))
    → lookup step s.ckpt_manager.local_files ≡ some content
    → let after = (shutdown true attempts s).ckpt_manager in
      (after.stopped ≡ true)
      × (after.queue ≡ [])
      × (lookup step after.lustre_files ≡ some content)
      × (after.bytes_pending ≡ lost)
unfolding shutdown Ckpt.shutdown
shutdown_lem limit lost step content attempts s acc tidy go good le waits found =
    let d =
      drain_lem limit lost step content attempts s.ckpt_manager acc tidy go good le waits found in
    let same = work-drain attempts s.ckpt_manager in
    (
      refl,
      ap (λ (m : Manager). m.queue) same ∙ d.0,
      ap (λ (m : Manager). lookup step m.lustre_files) same ∙ d.2,
      ap (λ (m : Manager). m.bytes_pending) same ∙ d.4,
    )
