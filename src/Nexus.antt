-- ===== src/Nexus.antt =====
-- `NexusCoordinator` of tempo/nexus_coordinator.py: the windows in which the ranks flush, and the gates
-- of the layers. What the all-reduce leaves in the gossip tensor is an argument, the load of each
-- rank; loads are only compared, so numbers stand for them. A gate is its CPU event: the CUDA events
-- are those of torch.
pub mod Order
pub mod Windows
mod Tests
use working_tempo.Base.{
  ℕ, zero, suc, ◌+◌, Bool, true, false, Option, none, some, List, [], ◌∷◌, ◌++◌, if◌then◌else◌, ltb,
  leb, ◌==◌, set, get_or,
}
use working_tempo.Base.Frac
use working_tempo.Base.Frac.{Frac, frac, whole, min_frac, max_frac}
use working_tempo.Interleave.{smoothed}

pub record CheckpointWindow : Type 0 where
  pub rank : ℕ
  pub step : ℕ
  pub delay_ms : Frac
  pub window_ms : Frac
  pub my_load : ℕ
  pub position : ℕ

pub record NexusCoordinator : Type 0 where
  pub rank : ℕ
  pub world_size : ℕ
  pub n_layers : ℕ
  pub window_ms_ema : Frac
  pub overlap_frac : Frac
  pub layer_gates : List Bool
  pub flush_times : List Frac

abbrev closed_gates : ℕ → List Bool
closed_gates zero = []
closed_gates (suc n) = false ∷ closed_gates n

-- `NexusCoordinator(...)`
abbrev pub new_nexus : ℕ → ℕ → ℕ → Frac → Frac → NexusCoordinator
new_nexus rank world_size n_layers base overlap = record {
  rank = rank;
  world_size = world_size;
  n_layers = n_layers;
  window_ms_ema = base;
  overlap_frac = overlap;
  layer_gates = closed_gates n_layers;
  flush_times = [];
}

-- `sorted(range(world_size), key=...)`, which is stable: a rank goes behind those of the same load.
unfoldable pub insert_rank : (ℕ → ℕ) → ℕ → List ℕ → List ℕ
insert_rank load r [] = r ∷ []
insert_rank load r (q ∷ qs) =
    let rest = insert_rank load r qs in if ltb (load r) (load q) then r ∷ q ∷ qs else q ∷ rest

unfoldable pub sorted_ranks : (ℕ → ℕ) → ℕ → List ℕ
unfolding insert_rank
sorted_ranks load zero = []
sorted_ranks load (suc n) = insert_rank load n (sorted_ranks load n)

-- `list.index`: `none` is a ValueError.
unfoldable pub index_of : ℕ → List ℕ → Option ℕ
index_of r [] = none
index_of r (q ∷ qs) =
    let rest = index_of r qs in
    if r == q then some 0 else elim rest [ none ↦ none | some i ↦ some (suc i) ]

-- `window_ms * (1.0 - self._overlap_frac)`
unfoldable pub slot_ms : NexusCoordinator → Frac
slot_ms s = Frac.mul s.window_ms_ema (Frac.sub (whole 1) s.overlap_frac)

unfoldable pub delay_of : ℕ → NexusCoordinator → Frac
unfolding slot_ms
delay_of position s = Frac.mul (whole position) (slot_ms s)

unfoldable pub compute_window : (ℕ → ℕ) → ℕ → NexusCoordinator → Option CheckpointWindow
unfolding sorted_ranks index_of delay_of
compute_window load step s = elim (index_of s.rank (sorted_ranks load s.world_size)) [
  | none ↦ none
  | some position ↦ some (record {
    rank = s.rank;
    step = step;
    delay_ms = delay_of position s;
    window_ms = s.window_ms_ema;
    my_load = load s.rank;
    position = position;
  })
]

-- `max(_MIN_WINDOW_MS, min(_MAX_WINDOW_MS, elapsed_ms))`
unfoldable pub clamped : Frac → Frac
clamped elapsed = max_frac (whole 50) (min_frac (whole 2000) elapsed)

unfoldable pub record_flush_time : Frac → NexusCoordinator → NexusCoordinator
unfolding clamped
record_flush_time elapsed s = record s {
  window_ms_ema = smoothed (frac 25 100) (clamped elapsed) s.window_ms_ema;
  flush_times = s.flush_times ++ elapsed ∷ [];
}

unfoldable pub reset_gates : List Bool → List Bool
reset_gates [] = []
reset_gates (g ∷ gs) = false ∷ reset_gates gs

unfoldable pub begin_step : NexusCoordinator → NexusCoordinator
unfolding reset_gates
begin_step s = record s { layer_gates = reset_gates s.layer_gates }

unfoldable pub on_layer_ar_done : ℕ → NexusCoordinator → NexusCoordinator
on_layer_ar_done layer s =
    if leb s.n_layers layer then s else record s { layer_gates = set s.layer_gates layer true }

-- `wait_layer_gate`: does a wait return without the timeout's warning, if no gate fires meanwhile?
unfoldable pub wait_layer_gate : ℕ → NexusCoordinator → Bool
wait_layer_gate layer s = if leb s.n_layers layer then true else get_or s.layer_gates layer false
