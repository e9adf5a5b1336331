-- ===== src/Interleave.antt =====
-- tempo/interleaving_engine.py: the predictor of the phases and the engine that cuts I/O before NCCL.
-- Durations are exact fractions of a millisecond, and the time of the clock, in microseconds, is an
-- argument. `math.sqrt` is a parameter. Each operation and the timer's callback hold the lock, so
-- each is one step.
pub mod Average
pub mod Windows
mod Tests
use working_tempo.Base.{
  ℕ, ◌+◌, ◌-◌, ◌*◌, Bool, true, false, not, Option, none, some, List, [], ◌∷◌, ◌++◌, if◌then◌else◌,
  ltb, leb, length, drop,
}
use working_tempo.Base.Frac
use working_tempo.Base.Frac.{Frac, frac, whole, lt_frac, le_frac, max_frac}

pub record Predictor : Type 0 where
  pub alpha : Frac
  pub compute_ewma : Frac
  pub nccl_ewma : Frac
  pub compute_var : Frac
  pub nccl_var : Frac
  pub history : List (Frac × Frac)

-- `_WINDOW_SIZE`
abbrev pub window_size : ℕ
window_size = 32

-- `PhaseDurationPredictor(alpha)`: 50 ms, 25 ms, and 7.5 ms squared twice.
abbrev pub new_predictor : Frac → Predictor
new_predictor alpha = record {
  alpha = alpha;
  compute_ewma = whole 50;
  nccl_ewma = whole 25;
  compute_var = frac 5625 100;
  nccl_var = frac 5625 100;
  history = [];
}

-- `(a - b) ** 2`
abbrev squared_difference : Frac → Frac → Frac
squared_difference a b = let d = if lt_frac a b then Frac.sub b a else Frac.sub a b in Frac.mul d d

-- `alpha * new + (1 - alpha) * old`
unfoldable pub smoothed : Frac → Frac → Frac → Frac
smoothed alpha new old = Frac.add (Frac.mul alpha new) (Frac.mul (Frac.sub (whole 1) alpha) old)

unfoldable pub update_compute : Frac → Predictor → Predictor
unfolding smoothed
update_compute dur p = record p {
  compute_var = smoothed p.alpha (squared_difference dur p.compute_ewma) p.compute_var;
  compute_ewma = smoothed p.alpha dur p.compute_ewma;
}

-- `append` to a deque of at most 32 entries.
unfoldable pub push_history : Frac × Frac → List (Frac × Frac) → List (Frac × Frac)
push_history e h =
    let longer = h ++ e ∷ [] in if ltb window_size (length longer) then drop 1 longer else longer

unfoldable pub update_nccl : Frac → Predictor → Predictor
unfolding smoothed push_history
update_nccl dur p =
    let ewma = smoothed p.alpha dur p.nccl_ewma in
    record p {
      nccl_var = smoothed p.alpha (squared_difference dur p.nccl_ewma) p.nccl_var;
      nccl_ewma = ewma;
      history = push_history (p.compute_ewma, ewma) p.history;
    }

unfoldable pub has_data : Predictor → Bool
has_data p = leb 4 (length p.history)

pub record Engine : Type 0 where
  pub predictor : Predictor
  pub in_compute : Bool
  pub compute_start : ℕ
  -- Is the deadline event set? I/O stops while it is.
  pub deadline : Bool
  -- The time, in microseconds, at which a timer runs out that is started and neither run out nor
  -- cancelled.
  pub timer : Option Frac
  -- The callbacks of timers that have run out and not got the lock yet: `cancel` does not stop them.
  pub waiting : ℕ
  pub io_windows_opened : ℕ
  pub io_windows_cut_early : ℕ
  pub io_windows_cut_late : ℕ
  pub total_io_window_ms : Frac
  pub total_safe_window_ms : Frac

-- `InterleavingEngine(predictor)`
abbrev pub new_engine : Predictor → Engine
new_engine p = record {
  predictor = p;
  in_compute = false;
  compute_start = 0;
  deadline = false;
  timer = none;
  waiting = 0;
  io_windows_opened = 0;
  io_windows_cut_early = 0;
  io_windows_cut_late = 0;
  total_io_window_ms = whole 0;
  total_safe_window_ms = whole 0;
}

-- `(time.perf_counter() - self._compute_start) * 1e3`
abbrev pub elapsed_ms : ℕ → Engine → Frac
elapsed_ms now e = frac (now - e.compute_start) 1000

module _ (sqrt : Frac → Frac) where
  -- The third component of `predict`: the others are fields.
  unfoldable pub safety_margin : Predictor → Frac
  safety_margin p = max_frac (whole 2) (Frac.mul (frac 15 100) (sqrt p.nccl_var))

  -- `max(0.0, pred_compute_ms - safety_ms)`
  unfoldable pub safe_window : Predictor → Frac
  unfolding safety_margin
  safe_window p = Frac.sub p.compute_ewma (safety_margin p)

  unfoldable pub on_compute_start : ℕ → Engine → Engine
  unfolding safe_window
  on_compute_start now e =
      let safe = safe_window e.predictor in
      let opened : Engine = record e {
        in_compute = true;
        compute_start = now;
        deadline = false;
        io_windows_opened = e.io_windows_opened + 1;
        total_safe_window_ms = Frac.add e.total_safe_window_ms safe;
      } in
      if le_frac (whole 1) safe
      then record opened { timer = some (Frac.add (whole now) (Frac.mul safe (whole 1000))) }
      else record opened { deadline = true }

  -- `get_safe_window_ms`
  unfoldable pub get_safe_window_ms : ℕ → Engine → Frac
  unfolding safety_margin
  get_safe_window_ms now e =
      if not e.in_compute
      then whole 0
      else Frac.sub (Frac.sub e.predictor.compute_ewma (safety_margin e.predictor))
          (elapsed_ms now e)

unfoldable pub leave_compute : ℕ → Engine → Engine
unfolding update_compute
leave_compute now e =
    if e.in_compute
    then record e {
      predictor = update_compute (elapsed_ms now e) e.predictor;
      total_io_window_ms = Frac.add e.total_io_window_ms (elapsed_ms now e);
      in_compute = false;
    }
    else e

unfoldable pub on_compute_end : ℕ → Engine → Engine
unfolding leave_compute
on_compute_end now e =
    let left = leave_compute now (record e { timer = none }) in
    if left.deadline
    then left
    else record left { deadline = true; io_windows_cut_late = left.io_windows_cut_late + 1 }

unfoldable pub on_nccl_end : Frac → Engine → Engine
unfolding update_nccl
on_nccl_end dur e = record e { predictor = update_nccl dur e.predictor }

-- The timer runs out, and its callback waits for the lock.
abbrev pub expire : Engine → Engine
expire e = elim e.timer [ none ↦ e | some due ↦ record e { timer = none; waiting = e.waiting + 1 } ]

-- `_fire_deadline`, by a callback that gets the lock.
unfoldable pub fire_deadline : Engine → Engine
fire_deadline e = record e {
  deadline = true;
  io_windows_cut_early = e.io_windows_cut_early + 1;
  waiting = e.waiting - 1;
}

-- `io_deadline_reached`
abbrev pub io_deadline_reached : Engine → Bool
io_deadline_reached e = e.deadline
