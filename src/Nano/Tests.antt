-- ===== src/Nano/Tests.antt =====
-- Tests of tempo/nano_overlap.py, and the theorems at a concrete run.
use working_tempo.Base.{◌≡◌, refl, true, false, none, some, List, [], ◌∷◌, arith}
use working_tempo.Nano.{
  Controller, LayerTiming, new_controller, begin_step, get, resize_if_needed, repeated,
  record_timing, new_timing, finish_io, from_to,
}
use working_tempo.Nano.Pool.{Holds, resized, get-resize_if_needed}
use working_tempo.Nano.Steps.{Event, starts, ends, works, run, GoesOn, Balances, run-Balances}

-- Two layers on a node without CUDA. A transfer of 7 ms outlasts its layer by 4 ms.
abbrev controller : Controller
unfolding new_controller
controller = new_controller 2 1024 true false true false

abbrev events : List Event
events =
    starts 0 1000
    ∷ ends 0 none (some (1 ∷ 2 ∷ [])) 4000
    ∷ starts 1 4000
    ∷ works 4000 11000
    ∷ ends 1 none none 6000
    ∷ ends 7 none none 6000
    ∷ works 11000 11500
    ∷ works 12000 12000
    ∷ []

run-Balances_example : GoesOn Balances (run events (begin_step 3 controller))
unfolding controller
run-Balances_example =
    run-Balances events 3 controller refl
      (tt, (tt, (tt, (omega arith, (tt, (tt, (omega arith, (omega arith, tt))))))))

-- A pool of four buffers has grown for two tensors.
get-resize_if_needed_example :
    Holds 900 (get 6 (resize_if_needed 900 (resized (100 ∷ 700 ∷ []) (repeated 4 512))))
get-resize_if_needed_example = get-resize_if_needed 3 512 6 900 (100 ∷ 700 ∷ [])

-- A layer of 3 ms whose transfer takes 2 ms.
abbrev layer : LayerTiming
layer = record new_timing { compute_start = 1000; compute_end = 4000; io_start = 4000 }

-- The overlap is 2 ms, and with a callback 2000 ms.
overlap_recorded : (record_timing false 6000 layer).overlap ≡ from_to 4000 6000
unfolding record_timing finish_io
overlap_recorded = refl

overlap_deferred : (record_timing true 6000 layer).overlap ≡ from_to 4000000 6000000
unfolding record_timing finish_io
overlap_deferred = refl
