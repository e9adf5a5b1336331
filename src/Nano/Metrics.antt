-- ===== src/Nano/Metrics.antt =====
-- `_compute_step_metrics` and `end_step` of tempo/nano_overlap.py.
use working_tempo.Base.{ℕ, ◌+◌, ◌-◌, max, List, [], ◌∷◌, ◌++◌, if◌then◌else◌, ltb, length, drop}
use working_tempo.Base.Frac
use working_tempo.Base.Frac.{Frac, frac, whole, max_frac}
use working_tempo.Nano.{Span, from_to, add_span, span_or, LayerTiming, StepMetrics, Controller}

-- The layers that were computed.
unfoldable pub computed : List LayerTiming → List LayerTiming
computed [] = []
computed (lt ∷ lts) = let rest = computed lts in if ltb 0 lt.compute_end then lt ∷ rest else rest

unfoldable pub total_compute : List LayerTiming → Span
total_compute [] = from_to 0 0
total_compute (lt ∷ lts) = add_span (from_to lt.compute_start lt.compute_end) (total_compute lts)

-- The sum over those with `io_end > 0`.
unfoldable pub total_io : List LayerTiming → Span
total_io [] = from_to 0 0
total_io (lt ∷ lts) =
    let rest = total_io lts in
    if ltb 0 lt.io_end then add_span (from_to lt.io_start lt.io_end) rest else rest

unfoldable pub total_bubble : List LayerTiming → ℕ
total_bubble [] = 0
total_bubble (lt ∷ lts) = lt.bubble + total_bubble lts

unfoldable pub total_overlap : List LayerTiming → Span
total_overlap [] = from_to 0 0
total_overlap (lt ∷ lts) = add_span lt.overlap (total_overlap lts)

unfoldable pub total_bytes : List LayerTiming → ℕ
total_bytes [] = 0
total_bytes (lt ∷ lts) = lt.io_bytes + total_bytes lts

-- Without a computed layer every total is 0, and so are the quotients; the bounds of the divisors are
-- 0.001 ms, one layer and 1e-9 s.
unfoldable pub compute_step_metrics : Controller → StepMetrics
unfolding computed total_compute total_io total_bubble total_overlap total_bytes
compute_step_metrics c =
    let lts = computed c.layer_timings in
    let io = total_io lts in
    record {
      step = c.step;
      n_layers = if ltb 0 (length lts) then length lts else c.n_layers;
      total_compute = total_compute lts;
      total_io = io;
      total_bubble = total_bubble lts;
      total_overlap = total_overlap lts;
      avg_bubble = frac (total_bubble lts) (max 1 (length lts));
      pipeline_eff = (total_overlap lts, span_or 1 (total_compute lts) (total_bubble lts));
      io_bytes_total = total_bytes lts;
      io_throughput_gbs =
          Frac.div
            (Frac.div (whole (total_bytes lts))
              (max_frac (frac 1 1000000000) (frac (io.until - io.since) 1000000)))
            (whole 1073741824);
      cuda_streams_used = c.use_cuda;
    }

-- `end_step`, without its waiting: the worker's rounds are steps of their own. The history keeps 100
-- entries.
unfoldable pub end_step : Controller → Controller × StepMetrics
unfolding compute_step_metrics
end_step c =
    let metrics = compute_step_metrics c in
    let longer = c.steps_history ++ metrics ∷ [] in
    (
      record c {
        steps_history = if ltb 100 (length longer) then drop 1 longer else longer;
        steps_done = c.steps_done + 1;
      },
      metrics,
    )
