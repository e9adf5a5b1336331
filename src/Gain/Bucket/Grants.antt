-- ===== src/Gain/Bucket/Grants.antt =====
-- What `TokenBucket` (tempo/service_gain.py) grants.
use working_tempo.Base.{
  ℕ, ◌+◌, ◌-◌, ◌*◌, ◌≤◌, ◌<◌, ◌≡◌, ◌⊎◌, refl, inl, inr, Bool, true, false, Option, none, some, List,
  [], ◌∷◌, arith, Bool-cases, if◌then◌else◌, leb, leb→le, subst, ◌∙◌,
}
use working_tempo.Gain.Bucket.{TokenBucket, parts, refill, acquire}

-- The bytes that an answer grants.
abbrev pub granted : ℕ → Option Bool → ℕ
granted n none = 0
granted n (some answer) = if answer then n else 0

-- The readings do not run back from a time.
abbrev pub IsMonotone : ℕ → List (ℕ × ℕ) → Type 0
IsMonotone since [] = Unit
IsMonotone since ((now, later) ∷ readings) = (since ≤ now) × IsMonotone now readings

-- What is granted and left is no more than what was there and has come in, and the bucket keeps to
-- its capacity.
abbrev pub Conserves : ℕ → TokenBucket → TokenBucket → Type 0
Conserves bytes s t =
    (t.rate_bps ≡ s.rate_bps)
    × (t.capacity ≡ s.capacity)
    × (t.tokens ≤ t.capacity)
    × (s.last_ts ≤ t.last_ts)
    × (bytes * parts + t.tokens + s.last_ts * s.rate_bps ≤ s.tokens + t.last_ts * s.rate_bps)

refill-Conserves : (now : ℕ) (b : TokenBucket) → b.last_ts ≤ now → Conserves 0 b (refill now b)
unfolding refill
refill-Conserves now b h =
    let e : (now - b.last_ts) + b.last_ts ≡ now = omega arith in
    let f : ((now - b.last_ts) + b.last_ts) * b.rate_bps ≡ now * b.rate_bps = rw e in
    (refl, refl, omega arith, h, omega (arith, f))

acquire-Conserves :
    (n deadline : ℕ) (readings : List (ℕ × ℕ)) (b : TokenBucket)
    → b.tokens ≤ b.capacity
    → IsMonotone b.last_ts readings
    → let (t, answer) = acquire n deadline readings b in Conserves (granted n answer) b t
unfolding acquire refill
acquire-Conserves n deadline [] b h m = (refl, refl, h, omega arith, omega arith)
acquire-Conserves n deadline ((now, later) ∷ readings) b h m =
    let r = refill now b in
    let (a1, a2, a3, a4, a5) = refill-Conserves now b m.0 in
    elim (Bool-cases (leb (n * parts) r.tokens)) [
      | inl enough ↦
          let room : n * parts ≤ r.tokens = leb→le _ _ enough in
          rw enough (a1, a2, omega (arith, a3), a4, omega (arith, a5, room))
      | inr short ↦ elim (Bool-cases (leb deadline later)) [
        | inl late ↦ rw (short, late) (a1, a2, a3, a4, a5)
        | inr wait ↦
            let (b1, b2, b3, b4, b5) = acquire-Conserves n deadline readings r a3 m.1 in
            rw (short, wait) (b1, b2, b3, omega (arith, a4, b4), omega (arith, a5, b5))
      ]
    ]

-- Requests that are served one after the other, each with its bytes, its deadline and the readings of
-- the clock: the bucket behind them, and the bytes granted in all.
abbrev pub serve : List (ℕ × ℕ × List (ℕ × ℕ)) → TokenBucket → TokenBucket × ℕ
serve [] b = (b, 0)
serve ((n, deadline, readings) ∷ more) b =
    let (t, answer) = acquire n deadline readings b in
    let (u, bytes) = serve more t in (u, granted n answer + bytes)

abbrev pub IsOrdered : List (ℕ × ℕ × List (ℕ × ℕ)) → TokenBucket → Type 0
IsOrdered [] b = Unit
IsOrdered ((n, deadline, readings) ∷ more) b =
    IsMonotone b.last_ts readings × IsOrdered more (acquire n deadline readings b).0

-- At a fixed rate, whatever requests are served on a clock that does not run back, the bytes granted
-- and the tokens left are together at most the tokens at the start and what the rate gives in the
-- time that passes; and the bucket never holds more than its capacity.
pub serve-Conserves :
    (requests : List (ℕ × ℕ × List (ℕ × ℕ))) (b : TokenBucket)
    → b.tokens ≤ b.capacity
    → IsOrdered requests b
    → let (u, bytes) = serve requests b in
      (u.rate_bps ≡ b.rate_bps)
      × (u.capacity ≡ b.capacity)
      × (u.tokens ≤ u.capacity)
      × (b.last_ts ≤ u.last_ts)
      × (bytes * parts + u.tokens + b.last_ts * b.rate_bps ≤ b.tokens + u.last_ts * b.rate_bps)
serve-Conserves [] b h o = (refl, refl, h, omega arith, omega arith)
serve-Conserves ((n, deadline, readings) ∷ more) b h o =
    let (t, answer) = acquire n deadline readings b in
    let (a1, a2, a3, a4, a5) = acquire-Conserves n deadline readings b h o.0 in
    let (b1, b2, b3, b4, b5) = serve-Conserves more t a3 o.1 in
    let c5 : (serve more t).1 * parts + (serve more t).0.tokens + t.last_ts * b.rate_bps
        ≤ t.tokens + (serve more t).0.last_ts * b.rate_bps =
      subst
        (λ (k : ℕ).
          (serve more t).1 * parts + (serve more t).0.tokens + t.last_ts * k
          ≤ t.tokens + (serve more t).0.last_ts * k)
        a1 b5 in
    (b1 ∙ a1, b2 ∙ a2, b3, omega (arith, a4, b4), omega (arith, a5, c5))

-- Some round tests the deadline once it has passed.
abbrev pub Passes : ℕ → List (ℕ × ℕ) → Type 0
Passes deadline [] = ⊥
Passes deadline ((now, later) ∷ readings) = (deadline ≤ later) ⊎ Passes deadline readings

-- `acquire` ends: where a round tests the deadline once it has passed, there is an answer. It is
-- False only where the tokens are too few.
pub acquire-answers :
    (n deadline : ℕ) (readings : List (ℕ × ℕ)) (b : TokenBucket)
    → Passes deadline readings
    → let (t, answer) = acquire n deadline readings b in
      (answer ≡ some true) ⊎ ((answer ≡ some false) × (t.tokens < n * parts))
unfolding acquire
acquire-answers n deadline [] b p = absurd p
acquire-answers n deadline ((now, later) ∷ readings) b p =
    elim (Bool-cases (leb (n * parts) (refill now b).tokens)) [
      | inl enough ↦ rw enough (inl refl)
      | inr short ↦ elim (Bool-cases (leb deadline later)) [
        | inl late ↦ rw (short, late) (inr (refl, ground (arith, short)))
        | inr wait ↦ elim p [
          | inl past ↦ absurd (ground (arith, wait, past))
          | inr more ↦ rw (short, wait) (acquire-answers n deadline readings (refill now b) more)
        ]
      ]
    ]
