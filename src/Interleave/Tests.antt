-- ===== src/Interleave/Tests.antt =====
-- Tests of tempo/interleaving_engine.py, and the theorems at concrete engines.
use working_tempo.Base.{◌+◌, ◌≤◌, ◌<◌, ◌≡◌, ◌⊎◌, refl, true, false, some, arith}
use working_tempo.Base.Frac
use working_tempo.Base.Frac.{Frac, frac, whole, LeFrac}
use working_tempo.Interleave.{
  Predictor, Engine, new_predictor, new_engine, update_compute, update_nccl, safe_window,
  on_compute_start, on_compute_end, on_nccl_end, expire, fire_deadline, leave_compute,
  safety_margin,
}
use working_tempo.Interleave.Average.{update_within}
use working_tempo.Interleave.Windows.{
  Reaches, here, next, starts, ends, expires, fires, cuts-le_opened, still, after_nccl, IsClosed,
  ended-IsClosed, on_compute_start_lem,
}

abbrev predictor : Predictor
predictor = new_predictor (frac 20 100)

-- A square root that is 7.5, as that of the first variance.
abbrev root : Frac → Frac
root v = frac 75 10

abbrev engine : Engine
engine = new_engine predictor

-- A window is opened, its timer fires, the phase ends, and the next window is cut late.
abbrev last : Engine
last = on_compute_end 90000 (
    on_compute_start root 70000
      (on_compute_end 60000 (fire_deadline (expire (on_compute_start root 10 engine)))))

timer_started :
    (on_compute_start root 10 engine).timer
    ≡ some (Frac.add (whole 10) (Frac.mul (safe_window root predictor) (whole 1000)))
unfolding on_compute_start safe_window safety_margin
timer_started = refl

trace : Reaches root engine last
unfolding on_compute_start safe_window safety_margin
trace =
    next
      (next (next (next (next (next here (starts 10)) expires) (fires (omega arith))) (ends 60000))
        (starts 70000))
      (ends 90000)

last-counts :
    (last.io_windows_cut_early ≡ 1) × (last.io_windows_cut_late ≡ 1) × (last.io_windows_opened ≡ 2)
unfolding on_compute_start safe_window safety_margin on_compute_end leave_compute fire_deadline
    update_compute
last-counts = (refl, refl, refl)

cuts-le_opened_example :
    (last.io_windows_cut_early ≤ last.io_windows_opened)
    × (last.io_windows_cut_late ≤ last.io_windows_opened + 1)
cuts-le_opened_example = cuts-le_opened root predictor trace

-- The timer runs out as the phase ends: the only window is counted as cut late and early.
abbrev raced : Engine
raced = fire_deadline (on_compute_end 45000 (expire (on_compute_start root 10 engine)))

raced-counts :
    (raced.io_windows_cut_early ≡ 1)
    × (raced.io_windows_cut_late ≡ 1)
    × (raced.io_windows_opened ≡ 1)
unfolding on_compute_start safe_window safety_margin on_compute_end leave_compute fire_deadline
    update_compute
raced-counts = (refl, refl, refl)

ended-IsClosed_example : IsClosed root (on_nccl_end (whole 8) (on_compute_end 60000 engine))
ended-IsClosed_example = ended-IsClosed root 60000 engine (after_nccl (whole 8) still)

on_compute_start_lem_example :
    let f = on_compute_start root 10 engine in
    let safe = safe_window root predictor in
    (f.io_windows_opened ≡ 1)
    × (((f.deadline ≡ false)
          × LeFrac (whole 1) safe
          × (f.timer ≡ some (Frac.add (whole 10) (Frac.mul safe (whole 1000))))
          × LeFrac (Frac.add safe (whole 2)) (whole 50))
        ⊎ ((f.deadline ≡ true) × (safe.num < safe.den)))
on_compute_start_lem_example = on_compute_start_lem root 10 engine (omega arith) (omega arith)

update_within_run :
    LeFrac (whole 20) (update_compute (whole 40) predictor).compute_ewma
    × LeFrac (update_compute (whole 40) predictor).compute_ewma (whole 60)
    × LeFrac (whole 20) (update_nccl (whole 40) predictor).nccl_ewma
    × LeFrac (update_nccl (whole 40) predictor).nccl_ewma (whole 60)
update_within_run =
    update_within predictor (whole 40) (whole 20) (whole 60) (omega arith) (omega arith)
      (omega arith) (omega arith) (omega arith) (omega arith) (omega arith)
