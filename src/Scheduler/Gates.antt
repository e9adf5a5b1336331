-- ===== src/Scheduler/Gates.antt =====
-- The two gates of V2 on I/O (tempo/scheduler.py): that of the phase monitor, and the deadline of the
-- interleaving engine, which the hooks move.
use working_tempo.Base.{
  ℕ, ◌≡◌, ◌≢◌, ◌∙◌, ap, sym, subst, ◌⊎◌, inl, inr, refl, true, false, not, Option, none, some, List,
  [], ◌∷◌, arith, ltb, if◌then◌else◌,
}
use working_tempo.Base.Frac.{Frac}
use working_tempo.Phase.{
  TrainingPhase, idle, compute, nccl_comm, checkpoint as checkpointing, same_phase,
}
use working_tempo.Phase.Gate.{IsGated, set_phase-IsGated, set_phase-phase}
use working_tempo.Interleave.{
  Engine, on_compute_end, leave_compute, on_nccl_end, expire, fire_deadline,
}
use working_tempo.Interleave.Windows.{expire-none}
use working_tempo.Scheduler.{Scheduler, hooked, transition}

-- The engine of an NCCL phase: I/O is stopped, and no timer is started.
abbrev pub IsShut : TrainingPhase → Engine → Type 0
IsShut phase e = (phase ≢ nccl_comm) ⊎ (e.deadline ≡ true) × (e.timer ≡ none)

on_compute_end-IsShut :
    (now : ℕ) (e : Engine)
    → ((on_compute_end now e).deadline ≡ true) × ((on_compute_end now e).timer ≡ none)
unfolding on_compute_end leave_compute
on_compute_end-IsShut now e = ground arith

phase-cases : (p : TrainingPhase) → (p ≡ nccl_comm) ⊎ (p ≢ nccl_comm)
phase-cases idle = inr (λ e. cc)
phase-cases compute = inr (λ e. cc)
phase-cases nccl_comm = inl refl
phase-cases checkpointing = inr (λ e. cc)

module _ (sqrt : Frac → Frac) where
  hooked-IsShut :
      (old new : TrainingPhase) (now : ℕ) (e : Engine)
      → IsShut old e
      → IsShut new (hooked sqrt old new now e)
  unfolding hooked
  hooked-IsShut idle nccl_comm now e h = inr (on_compute_end-IsShut now e)
  hooked-IsShut compute nccl_comm now e h = inr (on_compute_end-IsShut now e)
  hooked-IsShut checkpointing nccl_comm now e h = inr (on_compute_end-IsShut now e)
  hooked-IsShut nccl_comm nccl_comm now e h = h
  hooked-IsShut old idle now e h = inl (λ e. cc)
  hooked-IsShut old compute now e h = inl (λ e. cc)
  hooked-IsShut old checkpointing now e h = inl (λ e. cc)

  -- What moves the gates: a transition of the phase, a timer that runs out, the callback of one that
  -- has run out, and the end of an NCCL phase that is reported.
  pub data Move : Type 0 where
    enters : TrainingPhase → ℕ → Move
    expires fires : Move
    reports : Frac → Move

  abbrev pub with_engine : (Engine → Engine) → Scheduler → Scheduler
  with_engine f s = record s {
    interleaving = elim s.interleaving [ none ↦ none | some e ↦ some (f e) ];
  }

  abbrev pub fire : Engine → Engine
  fire e = if ltb 0 e.waiting then fire_deadline e else e

  abbrev pub move : Move → Scheduler → Scheduler
  move (enters new now) s = transition sqrt new now s
  move expires s = with_engine expire s
  move fires s = with_engine fire s
  move (reports dur) s = with_engine (on_nccl_end dur) s

  abbrev pub run : List Move → Scheduler → Scheduler
  run [] s = s
  run (m ∷ moves) s = run moves (move m s)

  -- The gates agree: the monitor's is that of its phase, and the engine's is shut in an NCCL phase.
  abbrev pub AllShut : TrainingPhase → Option Engine → Type 0
  AllShut phase none = Unit
  AllShut phase (some e) = IsShut phase e

  pub record AreSynced (s : Scheduler) : Type 0 where
    pub gated : IsGated s.phase_monitor
    pub shut : AllShut s.phase_monitor.phase s.interleaving

  transition-AllShut :
      (old new : TrainingPhase) (now : ℕ) (o : Option Engine)
      → AllShut old o
      → AllShut new (elim o [ none ↦ none | some e ↦ some (hooked sqrt old new now e) ])
  transition-AllShut old new now none h = tt
  transition-AllShut old new now (some e) h = hooked-IsShut old new now e h

  fire-AllShut :
      (phase : TrainingPhase) (o : Option Engine)
      → AllShut phase o
      → AllShut phase (elim o [ none ↦ none | some e ↦ some (fire e) ])
  unfolding fire_deadline
  fire-AllShut phase none h = tt
  fire-AllShut phase (some e) h = ground arith

  expire-AllShut :
      (phase : TrainingPhase) (o : Option Engine)
      → AllShut phase o
      → AllShut phase (elim o [ none ↦ none | some e ↦ some (expire e) ])
  expire-AllShut phase none h = tt
  expire-AllShut phase (some e) (inl other) = inl other
  expire-AllShut phase (some e) (inr shut) = inr (
      subst (λ (x : Engine). (x.deadline ≡ true) × (x.timer ≡ none)) (sym (expire-none e shut.1))
        shut)

  report-AllShut :
      (dur : Frac) (phase : TrainingPhase) (o : Option Engine)
      → AllShut phase o
      → AllShut phase (elim o [ none ↦ none | some e ↦ some (on_nccl_end dur e) ])
  unfolding on_nccl_end
  report-AllShut dur phase none h = tt
  report-AllShut dur phase (some e) h = h

  move-AreSynced : (m : Move) (s : Scheduler) → AreSynced s → AreSynced (move m s)
  unfolding transition
  move-AreSynced (enters new now) s h =
      let moved : Option Engine = elim s.interleaving [
        | none ↦ none
        | some e ↦ some (hooked sqrt s.phase_monitor.phase new now e)
      ] in
      let next : AllShut new moved =
        transition-AllShut s.phase_monitor.phase new now s.interleaving h.shut in
      record {
        gated = set_phase-IsGated new now s.phase_monitor h.gated;
        shut =
            subst (λ (p : TrainingPhase). AllShut p moved)
              (sym (set_phase-phase new now s.phase_monitor)) next;
      }
  move-AreSynced expires s h = record {
    gated = h.gated;
    shut = expire-AllShut s.phase_monitor.phase s.interleaving h.shut;
  }
  move-AreSynced fires s h = record {
    gated = h.gated;
    shut = fire-AllShut s.phase_monitor.phase s.interleaving h.shut;
  }
  move-AreSynced (reports dur) s h = record {
    gated = h.gated;
    shut = report-AllShut dur s.phase_monitor.phase s.interleaving h.shut;
  }

  -- From gates that agree, however the phases follow one another, timers run out and their callbacks get
  -- the lock, during an NCCL phase both gates are shut: the monitor allows no I/O, and the engine has
  -- stopped it and has no timer started.
  pub run-AreSynced :
      (moves : List Move) (s : Scheduler)
      → AreSynced s
      → let after = run moves s in
        AreSynced after
        × ((after.phase_monitor.phase ≢ nccl_comm) ⊎ (after.phase_monitor.io_allowed ≡ false))
  run-AreSynced [] s h = (
    h,
    elim (phase-cases s.phase_monitor.phase) [
      | inl e ↦ inr (h.gated.gate ∙ ap (λ (p : TrainingPhase). not (same_phase p nccl_comm)) e)
      | inr ne ↦ inl ne
    ],
  )
  run-AreSynced (m ∷ moves) s h = run-AreSynced moves (move m s) (move-AreSynced m s h)
