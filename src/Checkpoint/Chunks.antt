-- ===== src/Checkpoint/Chunks.antt =====
-- The chunk loop of `_do_flush` (tempo/checkpoint_manager.py). What the loop reads in a round, of the
-- phase monitor and of the clock, is the argument of the round. Times are in nanoseconds, and those
-- of the monitor in microseconds.
use working_tempo.Base.{
  ℕ, zero, suc, ◌+◌, ◌*◌, ◌/◌, Bool, true, false, not, ◌&&◌, List, [], ◌∷◌, ◌++◌, if◌then◌else◌,
  ltb, length, take, drop, min, max,
}
use working_tempo.Base.Frac
use working_tempo.Base.Frac.{Frac, frac, whole, lt_frac, min_frac, max_frac, is_zero}
use working_tempo.Checkpoint.{Bytes}
use working_tempo.Phase.{Monitor, get_dynamic_flush_rate, estimated_nccl_bps, get_avg_nccl_duration}

abbrev pub min_chunk_bytes : ℕ
min_chunk_bytes = 4 * 1024 * 1024

abbrev pub max_chunk_bytes : ℕ
max_chunk_bytes = 512 * 1024 * 1024

-- What a round finds.
pub record Round : Type 0 where
  -- The monitor as the chunk is sized, and as the rate is computed. The rate that is computed
  -- again behind the hard block is read by nothing.
  pub resized_at : Monitor
  pub paced_at : Monitor
  -- For each call of `wait_for_io_allowed` that answers False: was the stop event set behind it?
  pub waits : List Bool
  pub gate_time : ℕ
  pub write_time : ℕ
  -- Does `write` return?
  pub writes : Bool

pub record Copy : Type 0 where
  -- The manager's fields that the loop changes.
  pub chunk_bytes : ℕ
  pub throttle_waits : ℕ
  -- The bytes that are not read yet, and those that the `.tmp` file has.
  pub left : Bytes
  pub copied : Bytes
  pub samples : List (ℕ × ℕ)
  pub write_acc : ℕ
  pub block_acc : ℕ
  -- The soft throttle's calls of `sleep`, in seconds.
  pub sleeps : List Frac

-- `sum(s[0] for s in _write_samples)` and `sum(s[1] for s in _write_samples)`
abbrev pub sizes : List (ℕ × ℕ) → ℕ
sizes [] = 0
sizes (s ∷ samples) = s.0 + sizes samples

abbrev pub times : List (ℕ × ℕ) → ℕ
times [] = 0
times (s ∷ samples) = s.1 + times samples

-- In bytes per second; 1 GB/s before there is a sample.
unfoldable pub estimated_bw : List (ℕ × ℕ) → Frac
estimated_bw [] = whole 1000000000
estimated_bw (s ∷ samples) = frac (sizes (s ∷ samples) * 1000000000) (times (s ∷ samples))

-- The smoothed duration of the NCCL phases, or their mean while that is 0.
abbrev pub nccl_duration : Monitor → Frac
nccl_duration m = if is_zero m.ema_nccl then get_avg_nccl_duration m else m.ema_nccl

-- `int(0.5 * avg_nccl_ms * est_bw_bytes_per_ms)`
abbrev pub target_chunk : Frac → Frac → ℕ
target_chunk duration bw =
    let bytes = Frac.mul (Frac.mul (frac 1 2) duration) (Frac.div bw (whole 1000000)) in
    bytes.num / bytes.den

unfoldable pub resize_chunk : Bool → Monitor → Copy → Copy
unfolding estimated_bw
resize_chunk enabled m c =
    if enabled && (not (is_zero (nccl_duration m)) && ltb 0 (length c.samples))
    then record c {
      chunk_bytes =
          max min_chunk_bytes
            (min max_chunk_bytes (target_chunk (nccl_duration m) (estimated_bw c.samples)));
    }
    else c

-- The calls of `wait_for_io_allowed` that answer False; `true` where the stop event ends the loop.
unfoldable pub hard_block : List Bool → Copy → Copy × Bool
hard_block [] c = (c, false)
hard_block (stop ∷ waits) c =
    let counted : Copy = record c { throttle_waits = c.throttle_waits + 1 } in
    elim stop [ true ↦ (counted, true) | false ↦ hard_block waits counted ]

-- `chunk_bytes / max(rate, 1.0) - chunk_bytes / max(est_bw, 1.0)`
abbrev pub token_wait : ℕ → Frac → Frac → Frac
token_wait chunk rate bw =
    Frac.sub (Frac.div (whole chunk) (max_frac rate (whole 1)))
      (Frac.div (whole chunk) (max_frac bw (whole 1)))

unfoldable pub soft_throttle : Frac → Frac → Copy → Copy
soft_throttle rate bw c =
    let wait = token_wait c.chunk_bytes rate bw in
    if not (is_zero wait)
    then record c {
      throttle_waits = c.throttle_waits + 1;
      sleeps = min_frac wait (frac 50 1000) ∷ c.sleeps;
    }
    else c

-- `get_dynamic_flush_rate` with the loop's arguments; 64e9 is `pcie_ceiling_bps`.
unfoldable pub dynamic_rate : Frac → Monitor → Frac
dynamic_rate bw m =
    get_dynamic_flush_rate bw (estimated_nccl_bps m) (whole 64000000000) (frac 10 100) m

-- The hard block, the soft throttle or neither.
unfoldable pub throttle : Frac → Frac → List Bool → Copy → Copy × Bool
unfolding hard_block soft_throttle
throttle rate bw waits c =
    if is_zero rate
    then hard_block waits c
    else if lt_frac rate (Frac.mul bw (frac 95 100))
    then (soft_throttle rate bw c, false)
    else (c, false)

-- The pacing of a chunk by the monitor, up to `block_ms_acc`.
unfoldable pub pace : Round → Copy → Copy × Bool
unfolding throttle estimated_bw dynamic_rate
pace r c =
    let bw = estimated_bw c.samples in
    let (paced, stop) = throttle (dynamic_rate bw r.paced_at) bw r.waits c in
    (record paced { block_acc = paced.block_acc + (if stop then 0 else r.gate_time) }, stop)

-- `append`, then `pop(0)` if there are more than 8.
unfoldable pub push_sample : ℕ × ℕ → List (ℕ × ℕ) → List (ℕ × ℕ)
push_sample s samples =
    let longer = samples ++ s ∷ [] in if ltb 8 (length longer) then drop 1 longer else longer

unfoldable pub write_chunk : Bytes → ℕ → Copy → Copy
unfolding push_sample
write_chunk chunk time c = record c {
  left = drop c.chunk_bytes c.left;
  copied = c.copied ++ chunk;
  write_acc = c.write_acc + time;
  samples = push_sample (length chunk, time + 1) c.samples;
}

-- How a flush ends; `running` where the fuel of the loop is used up.
pub data End : Type 0 where
  done missing halted failed running : End

module _ (adaptive monitored : Bool) where
  abbrev pub prepare : Round → Copy → Copy × Bool
  prepare r c = if monitored then pace r (resize_chunk adaptive r.resized_at c) else (c, false)

  module _ (rounds : ℕ → Round) where
    unfoldable pub copy_loop : ℕ → ℕ → Copy → Copy × End
    unfolding resize_chunk pace write_chunk
    copy_loop zero i c = (c, running)
    copy_loop (suc fuel) i c =
        let (ready, stop) = prepare (rounds i) c in
        elim stop [
          | true ↦ (ready, halted)
          | false ↦ elim (take ready.chunk_bytes ready.left) [
            | [] ↦ (ready, done)
            | b ∷ bs ↦ elim (rounds i).writes [
              | true ↦ copy_loop fuel (i + 1) (write_chunk (b ∷ bs) (rounds i).write_time ready)
              | false ↦ (ready, failed)
            ]
          ]
        ]
