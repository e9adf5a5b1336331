-- ===== src/Nano.antt =====
-- tempo/nano_overlap.py: the pinned buffers, the operations of `NanoOverlapController` and the CPU
-- fallback's worker. Times are microseconds of a clock that does not go back, and an argument. A
-- difference of two times that can be negative is a `Span`, so that no sign is lost.
pub mod Metrics
pub mod Steps
pub mod Pool
mod Tests
use working_tempo.Base.{
  ℕ, zero, suc, ◌+◌, ◌-◌, ◌*◌, ◌/◌, ◌%◌, min, max, Bool, true, false, ◌||◌, Option, none, some,
  List, [], ◌∷◌, ◌++◌, map, if◌then◌else◌, ltb, leb, length, get_elem?, set, drop,
}
use working_tempo.Base.Frac
use working_tempo.Base.Frac.{Frac, frac, whole, lt_frac, max_frac}

-- The time `until - since`.
pub record Span : Type 0 where
  pub since : ℕ
  pub until : ℕ

abbrev pub from_to : ℕ → ℕ → Span
from_to since until = record { since = since; until = until }

abbrev pub add_span : Span → Span → Span
add_span a b = from_to (a.since + b.since) (a.until + b.until)

-- `max(least, span + extra)`
abbrev pub span_or : ℕ → Span → ℕ → ℕ
span_or least s extra = max least (s.until + extra - s.since)

pub record LayerTiming : Type 0 where
  pub compute_start : ℕ
  pub compute_end : ℕ
  pub io_start : ℕ
  pub io_end : ℕ
  pub io_bytes : ℕ
  pub bubble : ℕ
  pub overlap : Span

abbrev pub new_timing : LayerTiming
new_timing = record {
  compute_start = 0;
  compute_end = 0;
  io_start = 0;
  io_end = 0;
  io_bytes = 0;
  bubble = 0;
  overlap = from_to 0 0;
}

pub record Ewma : Type 0 where
  pub alpha : Frac
  pub value : Frac
  pub variance : Frac

unfoldable pub update_ewma : Frac → Ewma → Ewma
update_ewma x e =
    let below = lt_frac x e.value in
    let d = if below then Frac.sub e.value x else Frac.sub x e.value in
    let step = Frac.mul e.alpha d in
    record e {
      value = if below then Frac.sub e.value step else Frac.add e.value step;
      variance = Frac.mul (Frac.sub (whole 1) e.alpha) (Frac.add e.variance (Frac.mul step d));
    }

-- `StepMetrics`: the efficiency is its signed numerator with its denominator.
pub record StepMetrics : Type 0 where
  pub step : ℕ
  pub n_layers : ℕ
  pub total_compute : Span
  pub total_io : Span
  pub total_bubble : ℕ
  pub total_overlap : Span
  pub avg_bubble : Frac
  pub pipeline_eff : Span × ℕ
  pub io_bytes_total : ℕ
  pub io_throughput_gbs : Frac
  pub cuda_streams_used : Bool

pub record Controller : Type 0 where
  pub n_layers : ℕ
  pub chunk_bytes : ℕ
  pub has_callback : Bool
  pub use_cuda : Bool
  -- The numbers of elements of the pinned buffers.
  pub pinned_pool : Option (List ℕ)
  pub step : ℕ
  pub layer_timings : List LayerTiming
  -- The layers with an I/O event, one for each time that it was set, and the entries of the CPU queue.
  pub io_events : List ℕ
  pub cpu_queue : List (ℕ × List ℕ)
  pub compute_ewma : Ewma
  pub io_ewma : Ewma
  pub steps_done : ℕ
  pub steps_history : List StepMetrics
  -- The calls of `io_callback`.
  pub calls : List (ℕ × List ℕ)

abbrev pub repeated : ℕ → ℕ → List ℕ
repeated zero x = []
repeated (suc n) x = x ∷ repeated n x

abbrev new_ewma : Frac → Ewma
new_ewma init = record { alpha = frac 15 100; value = init; variance = whole 0 }

-- `NanoOverlapController(...)`. `allocates` says whether CUDA gives the pinned buffers; the step -1
-- before the first one is read by nothing.
unfoldable pub new_controller : ℕ → ℕ → Bool → Bool → Bool → Bool → Controller
new_controller n_layers chunk_bytes has_callback use_cuda preallocate_pinned allocates = record {
  n_layers = n_layers;
  chunk_bytes = chunk_bytes;
  has_callback = has_callback;
  use_cuda = use_cuda;
  pinned_pool =
      if use_cuda
      then if preallocate_pinned
        then if allocates
          then if ltb 0 n_layers then some (repeated n_layers (max 1 (chunk_bytes / 2))) else none
          else none
        else none
      else none;
  step = 0;
  layer_timings = [];
  io_events = [];
  cpu_queue = [];
  compute_ewma = new_ewma (frac 35 10);
  io_ewma = new_ewma (whole 1);
  steps_done = 0;
  steps_history = [];
  calls = [];
}

-- `PinnedBufferPool.get`
unfoldable pub get : ℕ → List ℕ → Option ℕ
get layer_id [] = none
get layer_id (buf ∷ pool) = get_elem? (buf ∷ pool) (layer_id % length (buf ∷ pool))

-- `PinnedBufferPool.resize_if_needed`
unfoldable pub resize_if_needed : ℕ → List ℕ → List ℕ
resize_if_needed required [] = []
resize_if_needed required (buf ∷ pool) =
    if ltb buf required then repeated (length (buf ∷ pool)) required else buf ∷ pool

abbrev pub new_timings : ℕ → List LayerTiming
new_timings zero = []
new_timings (suc n) = new_timing ∷ new_timings n

unfoldable pub begin_step : ℕ → Controller → Controller
begin_step step c = record c { step = step; layer_timings = new_timings c.n_layers; io_events = [] }

abbrev pub set_timing : ℕ → LayerTiming → Controller → Controller
set_timing layer_id lt c = record c { layer_timings = set c.layer_timings layer_id lt }

-- None stands for IndexError: no step has begun.
unfoldable pub on_layer_compute_start : ℕ → ℕ → Controller → Option Controller
on_layer_compute_start layer_id now c =
    if ltb layer_id c.n_layers
    then elim (get_elem? c.layer_timings layer_id) [
      | none ↦ none
      | some lt ↦ some (set_timing layer_id (record lt { compute_start = now }) c)
    ]
    else some c

-- A tensor, which may stand on the GPU.
pub record KvTensor : Type 0 where
  pub is_cuda : Bool
  pub numel : ℕ
  pub element_size : ℕ

-- `_enqueue_cuda_io`, up to the thread that it starts: the buffers grow before the copy.
unfoldable pub enqueue_cuda_io : ℕ → KvTensor → ℕ → LayerTiming → Controller → Controller
unfolding resize_if_needed
enqueue_cuda_io layer_id kv now lt c =
    let timed =
      set_timing layer_id (record lt { io_start = now; io_bytes = kv.numel * kv.element_size }) c in
    record timed {
      pinned_pool =
          if kv.is_cuda
          then elim c.pinned_pool [
            | none ↦ none
            | some pool ↦ some (resize_if_needed kv.numel pool)
          ]
          else c.pinned_pool;
      io_events = layer_id ∷ c.io_events;
    }

-- `kv_data or bytes(min(self.chunk_bytes, 512))`
abbrev pub data_of : Option (List ℕ) → ℕ → List ℕ
data_of none chunk = repeated (min chunk 512) 0
data_of (some []) chunk = repeated (min chunk 512) 0
data_of (some (b ∷ bytes)) chunk = b ∷ bytes

-- `len(kv_data) if kv_data else self.chunk_bytes`
abbrev pub bytes_of : Option (List ℕ) → ℕ → ℕ
bytes_of none chunk = chunk
bytes_of (some []) chunk = chunk
bytes_of (some (b ∷ bytes)) chunk = length (b ∷ bytes)

abbrev pub enqueue_cpu_io : ℕ → Option (List ℕ) → LayerTiming → Controller → Controller
enqueue_cpu_io layer_id kv_data lt c =
    let timed = set_timing layer_id (record lt { io_bytes = bytes_of kv_data c.chunk_bytes }) c in
    record timed { cpu_queue = c.cpu_queue ++ (layer_id, data_of kv_data c.chunk_bytes) ∷ [] }

-- `on_layer_compute_end` at the time `now`; the copy on a GPU starts at `io_now`.
unfoldable pub on_layer_compute_end :
    ℕ → Option KvTensor → Option (List ℕ) → ℕ → ℕ → Controller → Option Controller
unfolding enqueue_cuda_io update_ewma
on_layer_compute_end layer_id kv_tensor kv_data now io_now c =
    if ltb layer_id c.n_layers
    then elim (get_elem? c.layer_timings layer_id) [
      | none ↦ none
      | some lt ↦
          let ended : LayerTiming = record lt { compute_end = now } in
          let updated : Controller = record (set_timing layer_id ended c) {
            compute_ewma = update_ewma (frac (now - lt.compute_start) 1000) c.compute_ewma;
          } in
          if c.use_cuda
          then elim kv_tensor [
            | none ↦ some (enqueue_cpu_io layer_id kv_data ended updated)
            | some kv ↦ some (enqueue_cuda_io layer_id kv io_now ended updated)
          ]
          else some (enqueue_cpu_io layer_id kv_data ended updated)
    ]
    else some c

-- The end of a transfer. `min(io_ms, c_ms)` is the first where the two are equal.
unfoldable pub finish_io : ℕ → ℕ → LayerTiming → LayerTiming
finish_io io_start io_end lt = record lt {
  io_start = io_start;
  io_end = io_end;
  bubble = io_end + lt.compute_start - (io_start + lt.compute_end);
  overlap =
      if ltb (io_start + lt.compute_end) (io_end + lt.compute_start)
      then from_to lt.compute_start lt.compute_end
      else from_to io_start io_end;
}

-- `_record_timing`, and with a callback the first part of `_deferred_cb`, which multiplies the
-- overlap.
unfoldable pub record_timing : Bool → ℕ → LayerTiming → LayerTiming
unfolding finish_io
record_timing has_callback io_end lt =
    let done = finish_io lt.io_start io_end lt in
    if has_callback
    then record done { overlap = from_to (done.overlap.since * 1000) (done.overlap.until * 1000) }
    else done

-- One round of `_cpu_io_worker` with the queue's first entry, from `io_start` to `io_end`. Where no
-- step has begun there is no timing to write.
unfoldable pub take_io : ℕ → ℕ → List (ℕ × List ℕ) → Controller → Controller
unfolding finish_io update_ewma
take_io io_start io_end [] c = c
take_io io_start io_end (item ∷ queue) c =
    let called : Controller = record c {
      cpu_queue = queue;
      calls = if c.has_callback then c.calls ++ item ∷ [] else c.calls;
      io_ewma = update_ewma (frac (io_end - io_start) 1000) c.io_ewma;
    } in
    elim (get_elem? c.layer_timings item.0) [
      | none ↦ called
      | some lt ↦ set_timing item.0 (finish_io io_start io_end lt) called
    ]

unfoldable pub cpu_io : ℕ → ℕ → Controller → Controller
unfolding take_io
cpu_io io_start io_end c = take_io io_start io_end c.cpu_queue c

-- `get_predicted_io_window_ms`
abbrev pub get_predicted_io_window_ms : Controller → Frac
get_predicted_io_window_ms c = Frac.sub c.compute_ewma.value (frac 1 2)
