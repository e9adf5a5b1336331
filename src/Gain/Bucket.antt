-- ===== src/Gain/Bucket.antt =====
-- `TokenBucket` of tempo/service_gain.py, with a rate in whole bytes per second. The clock runs in
-- microseconds, so a token is counted as a million parts: `dt * rate_bps` is then a whole number.
pub mod Grants
use working_tempo.Base.{
  ℕ, ◌+◌, ◌-◌, ◌*◌, min, Bool, true, false, Option, none, some, List, [], ◌∷◌, if◌then◌else◌, leb,
}

pub record TokenBucket : Type 0 where
  pub rate_bps : ℕ
  pub capacity : ℕ
  pub tokens : ℕ
  pub last_ts : ℕ

-- The parts of a byte.
abbrev pub parts : ℕ
parts = 1000000

-- `TokenBucket(rate_bps, capacity_bytes)`: without a capacity, or with 0, that of 100 ms; full.
abbrev pub new_bucket : ℕ → Option ℕ → ℕ → TokenBucket
new_bucket rate bytes now =
    let burst = rate * 100000 in
    let capacity : ℕ = elim bytes [
      | none ↦ burst
      | some b ↦ if leb b 0 then burst else b * parts
    ] in
    record { rate_bps = rate; capacity = capacity; tokens = capacity; last_ts = now }

unfoldable pub set_rate : ℕ → TokenBucket → TokenBucket
set_rate rate b = record b { rate_bps = rate }

unfoldable pub refill : ℕ → TokenBucket → TokenBucket
refill now b = record b {
  tokens = min b.capacity (b.tokens + (now - b.last_ts) * b.rate_bps);
  last_ts = now;
}

-- The loop of `acquire`: the two readings of the clock in each round, at the refill and at the
-- deadline's test. It is still waiting where the readings end.
unfoldable pub acquire : ℕ → ℕ → List (ℕ × ℕ) → TokenBucket → TokenBucket × Option Bool
unfolding refill
acquire n deadline [] b = (b, none)
acquire n deadline ((now, later) ∷ readings) b =
    let b' = refill now b in
    let rest = acquire n deadline readings b' in
    if leb (n * parts) b'.tokens
    then (record b' { tokens = b'.tokens - n * parts }, some true)
    else if leb deadline later
    then (b', some false)
    else rest
