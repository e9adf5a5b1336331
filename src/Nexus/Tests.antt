-- ===== src/Nexus/Tests.antt =====
-- Tests of tempo/nexus_coordinator.py, and the theorems at three ranks.
use working_tempo.Base.{
  ◌≤◌, ℕ, ◌<◌, ◌≡◌, ◌⊎◌, refl, true, false, some, [], ◌∷◌, arith, if◌then◌else◌, ◌==◌,
}
use working_tempo.Base.Frac
use working_tempo.Base.Frac.{Frac, frac, whole, LeFrac}
use working_tempo.Nexus.{
  NexusCoordinator, CheckpointWindow, new_nexus, sorted_ranks, insert_rank, compute_window, slot_ms,
  begin_step, reset_gates, on_layer_ar_done, wait_layer_gate,
}
use working_tempo.Nexus.Windows.{compute_window_disjoint, record_all, record_all-within}

-- Rank 0 has the most load, and the others have the same.
abbrev load : ℕ → ℕ
load r = if r == 0 then 9 else 4

abbrev first : NexusCoordinator
first = new_nexus 0 3 2 (whole 200) (frac 1 10)

abbrev second : NexusCoordinator
second = new_nexus 1 3 2 (whole 200) (frac 1 10)

stable : sorted_ranks load 3 ≡ 1 ∷ 2 ∷ 0 ∷ []
unfolding sorted_ranks insert_rank
stable = refl

-- The gate of layer 1 is done and that of layer 0 is not; layer 7 is not there and does not wait.
gates :
    let s = on_layer_ar_done 7 (on_layer_ar_done 1 (begin_step first)) in
    (wait_layer_gate 0 s ≡ false) × (wait_layer_gate 1 s ≡ true) × (wait_layer_gate 7 s ≡ true)
unfolding on_layer_ar_done begin_step reset_gates wait_layer_gate
gates = (refl, refl, refl)

compute_window_disjoint_example :
    (v w : CheckpointWindow) × (compute_window load 5 first ≡ some v)
    × (compute_window load 5 second ≡ some w)
    × (LeFrac (Frac.add v.delay_ms (slot_ms first)) w.delay_ms
        ⊎ LeFrac (Frac.add w.delay_ms (slot_ms first)) v.delay_ms)
    × ((v.position < w.position) ⊎ (load 1 ≤ load 0))
compute_window_disjoint_example =
    compute_window_disjoint load 5 first second refl refl refl (omega arith) (omega arith)
      (omega arith)

record_all-within_run :
    LeFrac (whole 50) (record_all (whole 9000 ∷ whole 3 ∷ []) first).window_ms_ema
    × LeFrac (record_all (whole 9000 ∷ whole 3 ∷ []) first).window_ms_ema (whole 2000)
record_all-within_run =
    record_all-within (whole 9000 ∷ whole 3 ∷ []) first (omega arith) (omega arith)
