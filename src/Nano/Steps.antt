-- ===== src/Nano/Steps.antt =====
-- The steps of a run of tempo/nano_overlap.py on a node without CUDA, and the balance of its
-- measurements.
use working_tempo.Base.{
  ℕ, zero, suc, ◌+◌, ◌≤◌, ◌≡◌, refl, sym, subst, ◌∙◌, inl, inr, false, Option, none, some, List, [],
  ◌∷◌, length, get_elem?, set, All, arith, ltb, if◌then◌else◌, Bool-cases, Option-cases, if_false,
  ltb→lt, length-set,
}
use working_tempo.Nano.{
  LayerTiming, Controller, new_timings, begin_step, set_timing, on_layer_compute_start,
  on_layer_compute_end, KvTensor, finish_io, take_io, cpu_io, bytes_of,
}
use working_tempo.Nano.Metrics.{
  computed, total_io, total_bubble, total_overlap, compute_step_metrics,
}

-- The main thread starts and ends layers; the worker takes an entry of the queue.
pub data Event : Type 0 where
  starts : ℕ → ℕ → Event
  ends : ℕ → Option KvTensor → Option (List ℕ) → ℕ → Event
  works : ℕ → ℕ → Event

unfoldable pub apply : Event → Controller → Option Controller
unfolding on_layer_compute_start on_layer_compute_end cpu_io
apply (starts layer_id now) c = on_layer_compute_start layer_id now c
apply (ends layer_id kv bytes now) c = on_layer_compute_end layer_id kv bytes now now c
apply (works io_start io_end) c = some (cpu_io io_start io_end c)

unfoldable pub run : List Event → Controller → Option Controller
unfolding apply
run [] c = some c
run (e ∷ events) c = elim (apply e c) [ none ↦ none | some c' ↦ run events c' ]

-- A transfer does not end before it starts.
abbrev pub IsOrdered : Event → Type 0
IsOrdered (starts layer_id now) = Unit
IsOrdered (ends layer_id kv bytes now) = Unit
IsOrdered (works io_start io_end) = io_start ≤ io_end

-- The transfer's time is its bubble and its overlap.
abbrev pub IsBalanced : LayerTiming → Type 0
IsBalanced lt =
    (lt.io_start ≤ lt.io_end)
    × (lt.bubble + lt.overlap.until + lt.io_start ≡ lt.io_end + lt.overlap.since)

abbrev IsMeasured : Controller → Type 0
IsMeasured c =
    (c.use_cuda ≡ false) × (length c.layer_timings ≡ c.n_layers) × All IsBalanced c.layer_timings

-- The step goes on, in a state with the property.
abbrev pub GoesOn : (Controller → Type 0) → Option Controller → Type 0
GoesOn P none = ⊥
GoesOn P (some c) = P c

new_timings-IsBalanced : (n : ℕ) → All IsBalanced (new_timings n)
new_timings-IsBalanced zero = tt
new_timings-IsBalanced (suc n) = ((omega arith, omega arith), new_timings-IsBalanced n)

length-new_timings : (n : ℕ) → length (new_timings n) ≡ n
length-new_timings zero = refl
length-new_timings (suc n) = omega (arith, length-new_timings n)

get-IsBalanced :
    (lts : List LayerTiming) (i : ℕ) (lt : LayerTiming)
    → All IsBalanced lts
    → get_elem? lts i ≡ some lt
    → IsBalanced lt
get-IsBalanced [] i lt all found = absurd cc
get-IsBalanced (x ∷ lts) zero lt all found = let same : x ≡ lt = cc in subst IsBalanced same all.0
get-IsBalanced (x ∷ lts) (suc i) lt all found = get-IsBalanced lts i lt all.1 found

set-IsBalanced :
    (lts : List LayerTiming) (i : ℕ) (lt : LayerTiming)
    → All IsBalanced lts
    → IsBalanced lt
    → All IsBalanced (set lts i lt)
set-IsBalanced [] i lt all new = tt
set-IsBalanced (x ∷ lts) zero lt all new = (new, all.1)
set-IsBalanced (x ∷ lts) (suc i) lt all new = (all.0, set-IsBalanced lts i lt all.1 new)

get-length : (lts : List LayerTiming) (i : ℕ) → get_elem? lts i ≡ none → length lts ≤ i
get-length [] i missing = omega arith
get-length (x ∷ lts) zero missing = absurd cc
get-length (x ∷ lts) (suc i) missing = omega (arith, get-length lts i missing)

finish_io-IsBalanced :
    (io_start io_end : ℕ) (lt : LayerTiming)
    → io_start ≤ io_end
    → IsBalanced (finish_io io_start io_end lt)
unfolding finish_io
finish_io-IsBalanced io_start io_end lt le = (le, ground arith)

-- The timings keep their number and their balance.
set_timing-IsMeasured :
    (i : ℕ) (lt : LayerTiming) (c : Controller)
    → IsMeasured c
    → IsBalanced lt
    → IsMeasured (set_timing i lt c)
set_timing-IsMeasured i lt c m balanced =
    (m.0, length-set c.layer_timings i lt ∙ m.1, set-IsBalanced c.layer_timings i lt m.2 balanced)

-- A layer of the model has its timing.
found_timing :
    (P : Option Controller → Type 0) (i : ℕ) (c : Controller) (go : LayerTiming → Option Controller)
    → IsMeasured c
    → P (some c)
    → ((lt : LayerTiming) → IsBalanced lt → P (go lt))
    → P (
        if ltb i c.n_layers
        then elim (get_elem? c.layer_timings i) [ none ↦ none | some lt ↦ go lt ]
        else some c)
found_timing P i c go m past here = elim (Bool-cases (ltb i c.n_layers)) [
  | inr past_end ↦ rw past_end past
  | inl within ↦ elim (Option-cases (get_elem? c.layer_timings i)) [
    | inl missing ↦
        let short = get-length c.layer_timings i missing in
        let inside = ltb→lt i c.n_layers within in absurd (omega (arith, short, inside, m.1))
    | inr (lt, found) ↦ rw (within, found) (here lt (get-IsBalanced c.layer_timings i lt m.2 found))
  ]
]

take_io-IsMeasured :
    (io_start io_end : ℕ) (queue : List (ℕ × List ℕ)) (c : Controller)
    → io_start ≤ io_end
    → IsMeasured c
    → IsMeasured (take_io io_start io_end queue c)
unfolding take_io
take_io-IsMeasured io_start io_end [] c le m = m
take_io-IsMeasured io_start io_end (item ∷ queue) c le m =
    elim (Option-cases (get_elem? c.layer_timings item.0)) [
      | inl missing ↦ rw (missing, take_io) m
      | inr (lt, found) ↦
          rw (found, take_io)
            (set_timing-IsMeasured item.0 (finish_io io_start io_end lt) c m
              (finish_io-IsBalanced io_start io_end lt le))
    ]

apply-IsMeasured :
    (e : Event) (c : Controller) → IsOrdered e → IsMeasured c → GoesOn IsMeasured (apply e c)
unfolding apply on_layer_compute_start on_layer_compute_end cpu_io
apply-IsMeasured (works io_start io_end) c le m =
    take_io-IsMeasured io_start io_end c.cpu_queue c le m
apply-IsMeasured (starts i now) c le m =
    found_timing (GoesOn IsMeasured) i c _ m m
      (λ lt balanced. set_timing-IsMeasured i _ c m balanced)
apply-IsMeasured (ends i kv bytes now) c le m =
    found_timing (GoesOn IsMeasured) i c _ m m (λ lt balanced.
      subst (GoesOn IsMeasured) (sym (if_false c.use_cuda _ _ m.0)) (
        set_timing-IsMeasured i
          (record lt { compute_end = now; io_bytes = bytes_of bytes c.chunk_bytes })
          (set_timing i (record lt { compute_end = now }) c)
          (set_timing-IsMeasured i (record lt { compute_end = now }) c m balanced) balanced))

and_then :
    (events : List Event) (o : Option Controller)
    → ((c : Controller) → IsMeasured c → GoesOn IsMeasured (run events c))
    → GoesOn IsMeasured o
    → GoesOn IsMeasured (elim o [ none ↦ none | some c ↦ run events c ])
and_then events none go next = next
and_then events (some c) go next = go c next

run-IsMeasured :
    (events : List Event) (c : Controller)
    → All IsOrdered events
    → IsMeasured c
    → GoesOn IsMeasured (run events c)
unfolding run
run-IsMeasured [] c le m = m
run-IsMeasured (e ∷ events) c le m =
    and_then events (apply e c) (λ c' measured. run-IsMeasured events c' le.1 measured)
      (apply-IsMeasured e c le.0 m)

-- The totals of the layers that were computed.
totals_balance :
    (lts : List LayerTiming)
    → All IsBalanced lts
    → total_bubble (computed lts)
        + (total_overlap (computed lts)).until
        + (total_io (computed lts)).since
      ≡ (total_io (computed lts)).until + (total_overlap (computed lts)).since
unfolding total_bubble total_overlap total_io computed
totals_balance [] all = omega arith
totals_balance (lt ∷ lts) all = let ih = totals_balance lts all.1 in ground (arith, ih)

GoesOn-map :
    (P Q : Controller → Type 0) (o : Option Controller)
    → ((c : Controller) → P c → Q c)
    → GoesOn P o
    → GoesOn Q o
GoesOn-map P Q none f h = h
GoesOn-map P Q (some c) f h = f c h

abbrev pub Balances : Controller → Type 0
Balances c =
    let metrics = compute_step_metrics c in
    metrics.total_bubble + metrics.total_overlap.until + metrics.total_io.since
    ≡ metrics.total_io.until + metrics.total_overlap.since

-- Without CUDA, after a step has begun, layers started and ended in any order, any number of them out
-- of range, and rounds of the worker that do not end before they start raise no IndexError, and in the
-- metrics of the state that they reach the bubbles and the overlap make up the time of I/O.
pub run-Balances :
    (events : List Event) (step : ℕ) (c : Controller)
    → c.use_cuda ≡ false
    → All IsOrdered events
    → GoesOn Balances (run events (begin_step step c))
unfolding compute_step_metrics begin_step
run-Balances events step c cpu ordered =
    GoesOn-map IsMeasured Balances (run events (begin_step step c))
      (λ c' m. totals_balance c'.layer_timings m.2)
      (run-IsMeasured events (begin_step step c) ordered
        (cpu, length-new_timings c.n_layers, new_timings-IsBalanced c.n_layers))
