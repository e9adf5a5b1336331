-- ===== src/Checkpoint/Pacing.antt =====
-- The pacing of a chunk in `_do_flush` (tempo/checkpoint_manager.py).
use working_tempo.Base.{
  ◌+◌, ◌≤◌, ◌≡◌, ◌∙◌, ◌≢◌, ◌⊎◌, inl, inr, refl, Bool, true, false, List, [], ◌∷◌, arith, Bool-cases,
  length, All,
}
use working_tempo.Base.Frac
use working_tempo.Base.Frac.{
  Frac, frac, whole, LeFrac, lt_frac, is_zero, min_frac, min_frac-le_right,
}
use working_tempo.Phase.{nccl_comm, Monitor, get_dynamic_flush_rate}
use working_tempo.Checkpoint.Chunks.{
  Round, Copy, resize_chunk, hard_block, soft_throttle, dynamic_rate, throttle, pace, prepare,
  min_chunk_bytes, max_chunk_bytes, token_wait, estimated_bw,
}
use working_tempo.Checkpoint.Copies.{hard_block-goes}

-- What the pacing of a chunk may change.
record IsPaced (r : Round) (c : Copy) (p : Copy × Bool) : Type 0 where
  goes : p.1 ≡ false
  left : p.0.left ≡ c.left
  copied : p.0.copied ≡ c.copied
  chunk : p.0.chunk_bytes ≡ c.chunk_bytes
  nccl :
      (r.paced_at.phase ≢ nccl_comm)
      ⊎ (p.0.throttle_waits ≡ c.throttle_waits + length r.waits) × (p.0.sleeps ≡ c.sleeps)
  sleeps :
      (p.0.sleeps ≡ c.sleeps) ⊎ ((s : Frac) × LeFrac s (frac 50 1000) × (p.0.sleeps ≡ s ∷ c.sleeps))

resize_chunk-bounds :
    (on : Bool) (r : Round) (c : Copy)
    → let d = resize_chunk on r.resized_at c in
      (d.chunk_bytes ≡ c.chunk_bytes)
      ⊎ (min_chunk_bytes ≤ d.chunk_bytes) × (d.chunk_bytes ≤ max_chunk_bytes)
unfolding resize_chunk
resize_chunk-bounds on r c = ground arith

resize_chunk-rest :
    (on : Bool) (r : Round) (c : Copy)
    → let d = resize_chunk on r.resized_at c in
      (d.left ≡ c.left)
      × (d.copied ≡ c.copied)
      × (d.throttle_waits ≡ c.throttle_waits)
      × (d.sleeps ≡ c.sleeps)
unfolding resize_chunk
resize_chunk-rest on r c = ground arith

hard_block-rest :
    (waits : List Bool) (c : Copy)
    → let d = (hard_block waits c).0 in
      (d.left ≡ c.left)
      × (d.copied ≡ c.copied)
      × (d.chunk_bytes ≡ c.chunk_bytes)
      × (d.sleeps ≡ c.sleeps)
unfolding hard_block
hard_block-rest [] c = (refl, refl, refl, refl)
hard_block-rest (true ∷ waits) c = (refl, refl, refl, refl)
hard_block-rest (false ∷ waits) c = hard_block-rest waits _

nccl_rate : (bw : Frac) (m : Monitor) → (m.phase ≢ nccl_comm) ⊎ (is_zero (dynamic_rate bw m) ≡ true)
unfolding dynamic_rate get_dynamic_flush_rate
nccl_rate bw m = ground arith

soft_throttle_lem :
    (rate bw : Frac) (c : Copy)
    → let d = soft_throttle rate bw c in
      (d.left ≡ c.left)
      × (d.copied ≡ c.copied)
      × (d.chunk_bytes ≡ c.chunk_bytes)
      × ((d.sleeps ≡ c.sleeps) ⊎ ((s : Frac) × LeFrac s (frac 50 1000) × (d.sleeps ≡ s ∷ c.sleeps)))
unfolding soft_throttle
soft_throttle_lem rate bw c =
    let wait = token_wait c.chunk_bytes rate bw in
    elim (Bool-cases (is_zero wait)) [
      | inl none ↦ rw none (refl, refl, refl, inl refl)
      | inr some ↦ rw some (
        refl,
        refl,
        refl,
        inr (min_frac wait (frac 50 1000), min_frac-le_right wait (frac 50 1000), refl),
      )
    ]

throttle_lem :
    (rate bw : Frac) (r : Round) (c : Copy)
    → All (λ stop. stop ≡ false) r.waits
    → (r.paced_at.phase ≢ nccl_comm) ⊎ (is_zero rate ≡ true)
    → IsPaced r c (throttle rate bw r.waits c)
unfolding throttle
throttle_lem rate bw r c h k = elim (Bool-cases (is_zero rate)) [
  | inl zero ↦
      let block = hard_block-goes r.waits c h in
      let rest = hard_block-rest r.waits c in
      rw zero (record {
        goes = block.0;
        left = rest.0;
        copied = rest.1;
        chunk = rest.2;
        nccl = inr (block.1, rest.3);
        sleeps = inl rest.3;
      })
  | inr some ↦
      let other : r.paced_at.phase ≢ nccl_comm = ground arith in
      let soft = soft_throttle_lem rate bw c in
      elim (Bool-cases (lt_frac rate (Frac.mul bw (frac 95 100)))) [
        | inl less ↦
            rw (some, less)
              (record {
                goes = refl;
                left = soft.0;
                copied = soft.1;
                chunk = soft.2;
                nccl = inl other;
                sleeps = soft.3;
              })
        | inr full ↦
            rw (some, full)
              (record {
                goes = refl;
                left = refl;
                copied = refl;
                chunk = refl;
                nccl = inl other;
                sleeps = inl refl;
              })
      ]
]

-- With a phase monitor, and where the stop event is not set behind a wait for it, a chunk is paced to
-- the end, and without a change of the file's bytes. The chunk size is then between 4 and 512 MiB, or as
-- it was. In an NCCL phase the loop counts each wait in vain and does not sleep by itself; else it sleeps at most once, for
-- at most 50 ms.
pub prepare_lem :
    (adaptive : Bool) (r : Round) (c : Copy)
    → All (λ stop. stop ≡ false) r.waits
    → let (ready, stop) = prepare adaptive true r c in
      (stop ≡ false)
      × (ready.left ≡ c.left)
      × (ready.copied ≡ c.copied)
      × ((ready.chunk_bytes ≡ c.chunk_bytes)
          ⊎ (min_chunk_bytes ≤ ready.chunk_bytes) × (ready.chunk_bytes ≤ max_chunk_bytes))
      × ((r.paced_at.phase ≢ nccl_comm)
          ⊎ (ready.throttle_waits ≡ c.throttle_waits + length r.waits) × (ready.sleeps ≡ c.sleeps))
      × ((ready.sleeps ≡ c.sleeps)
          ⊎ ((s : Frac) × LeFrac s (frac 50 1000) × (ready.sleeps ≡ s ∷ c.sleeps)))
unfolding pace
prepare_lem adaptive r c h =
    let d = resize_chunk adaptive r.resized_at c in
    let bw = estimated_bw d.samples in
    let p = throttle_lem (dynamic_rate bw r.paced_at) bw r d h (nccl_rate bw r.paced_at) in
    let q = resize_chunk-rest adaptive r c in
    let bounds = resize_chunk-bounds adaptive r c in
    (
      p.goes,
      p.left ∙ q.0,
      p.copied ∙ q.1,
      ground (arith, p.chunk, bounds),
      ground (arith, p.nccl, q),
      ground (arith, p.sleeps, q),
    )
