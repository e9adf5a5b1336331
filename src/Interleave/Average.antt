-- ===== src/Interleave/Average.antt =====
-- The moving averages of `PhaseDurationPredictor` (tempo/interleaving_engine.py).
use working_tempo.Base.{ℕ, ◌+◌, ◌-◌, ◌*◌, ◌≤◌, ◌≡◌, arith}
use native.Mathlib.Nat.{mul-le-mul_right}
use working_tempo.Base.Frac
use working_tempo.Base.Frac.{Frac, whole, LeFrac}
use working_tempo.Interleave.{Predictor, smoothed, update_compute, update_nccl}

-- A weighted mean lies below what both of its terms lie below, and above what both lie above.
mean-le :
    (n m d an ad bn bd cn cd : ℕ)
    → n + m ≡ d
    → an * cd ≤ cn * ad
    → bn * cd ≤ cn * bd
    → (n * an * (d * bd) + m * bn * (d * ad)) * cd ≤ cn * (d * ad * (d * bd))
mean-le n m d an ad bn bd cn cd e p q =
    let x = mul-le-mul_right (n * (n + m) * bd) p in
    let y = mul-le-mul_right (m * (n + m) * ad) q in rw (← e) (omega (arith, x, y))

mean-ge :
    (n m d an ad bn bd cn cd : ℕ)
    → n + m ≡ d
    → cn * ad ≤ an * cd
    → cn * bd ≤ bn * cd
    → cn * (d * ad * (d * bd)) ≤ (n * an * (d * bd) + m * bn * (d * ad)) * cd
mean-ge n m d an ad bn bd cn cd e p q =
    let x = mul-le-mul_right (n * (n + m) * bd) p in
    let y = mul-le-mul_right (m * (n + m) * ad) q in rw (← e) (omega (arith, x, y))

pub smoothed-le :
    (alpha a b c : Frac)
    → alpha.num ≤ alpha.den
    → LeFrac a c
    → LeFrac b c
    → LeFrac (smoothed alpha a b) c
unfolding smoothed
smoothed-le alpha a b c h p q =
    let mean =
      mean-le alpha.num (1 * alpha.den - alpha.num * 1) (1 * alpha.den) a.num a.den b.num b.den
        c.num c.den (omega arith) p q in
    let raw : LeFrac (Frac.add (Frac.mul alpha a) (Frac.mul (Frac.sub (whole 1) alpha) b)) c =
      omega (arith, mean) in
    raw

pub smoothed-ge :
    (alpha a b c : Frac)
    → alpha.num ≤ alpha.den
    → LeFrac c a
    → LeFrac c b
    → LeFrac c (smoothed alpha a b)
unfolding smoothed
smoothed-ge alpha a b c h p q =
    let mean =
      mean-ge alpha.num (1 * alpha.den - alpha.num * 1) (1 * alpha.den) a.num a.den b.num b.den
        c.num c.den (omega arith) p q in
    let raw : LeFrac c (Frac.add (Frac.mul alpha a) (Frac.mul (Frac.sub (whole 1) alpha) b)) =
      omega (arith, mean) in
    raw

-- With a weight of at most one, bounds that hold for the two predictions and for the measured phase
-- hold for the prediction of the compute phase after such a phase, and for that of the NCCL phase.
pub update_within :
    (p : Predictor) (dur low high : Frac)
    → p.alpha.num ≤ p.alpha.den
    → LeFrac low dur
    → LeFrac dur high
    → LeFrac low p.compute_ewma
    → LeFrac p.compute_ewma high
    → LeFrac low p.nccl_ewma
    → LeFrac p.nccl_ewma high
    → LeFrac low (update_compute dur p).compute_ewma
      × LeFrac (update_compute dur p).compute_ewma high
      × LeFrac low (update_nccl dur p).nccl_ewma
      × LeFrac (update_nccl dur p).nccl_ewma high
unfolding update_compute update_nccl
update_within p dur low high h l u a b c d = (
  smoothed-ge p.alpha dur p.compute_ewma low h l a,
  smoothed-le p.alpha dur p.compute_ewma high h u b,
  smoothed-ge p.alpha dur p.nccl_ewma low h l c,
  smoothed-le p.alpha dur p.nccl_ewma high h u d,
)
