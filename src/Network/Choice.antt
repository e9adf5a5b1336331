-- ===== src/Network/Choice.antt =====
-- Which rail `NetworkMonitor` (tempo/network_monitor.py) selects, and when it foresees congestion.
use working_tempo.Base.{
  ℕ, ◌+◌, ◌-◌, ◌*◌, ◌≤◌, ◌<◌, ◌≡◌, ap, ◌⊎◌, inl, inr, refl, true, false, Option, none, some, List,
  [], ◌∷◌, map, arith, Bool-cases, All, leb→le, lt→ltb, leb,
}
use native.Mathlib.Nat.{mul-le-mul_right}
use working_tempo.Base.Frac
use working_tempo.Base.Frac.{
  Frac, frac, whole, lt_frac, le_frac, max_frac, LeFrac, LeFrac-trans, mul_pos,
}
use working_tempo.Network.{Nic, NetworkMonitor, simulated, util_of}
use working_tempo.Network.Rails.{
  Rail, per_rail_util, least, pick_rail, select_idle_rail, count_below, count_idle_rails, Forecast,
  infinite, in_ms, headroom, predict_congestion_ms,
}

-- One of the rails.
abbrev pub OneOf : Rail → List Rail → Type 0
OneOf rail [] = ⊥
OneOf rail (r ∷ rails) = (rail ≡ r) ⊎ OneOf rail rails

-- No rail has less.
abbrev pub IsLeast : Rail → List Rail → Type 0
IsLeast rail rails = All (λ r. LeFrac rail.1 r.1) rails

IsLeast-trans :
    (a b : Rail) (rails : List Rail)
    → 0 < b.1.den
    → LeFrac a.1 b.1
    → IsLeast b rails
    → IsLeast a rails
IsLeast-trans a b [] pos le h = tt
IsLeast-trans a b (r ∷ rails) pos le h =
    (LeFrac-trans a.1 b.1 r.1 pos le h.0, IsLeast-trans a b rails pos le h.1)

abbrev pub HasDens : List Rail → Type 0
HasDens rails = All (λ (r : Rail). 0 < r.1.den) rails

pub record Chosen (best : Rail) (rails : List Rail) (rail : Rail) : Type 0 where
  pub one : OneOf rail (best ∷ rails)
  pub first : LeFrac rail.1 best.1
  pub rest : IsLeast rail rails
  pub den : 0 < rail.1.den

pub least-Chosen :
    (best : Rail) (rails : List Rail)
    → 0 < best.1.den
    → HasDens rails
    → Chosen best rails (least best rails)
unfolding least
least-Chosen best [] pos h = record { one = inl refl; first = omega arith; rest = tt; den = pos }
least-Chosen best (r ∷ rails) pos h = elim (Bool-cases (lt_frac r.1 best.1)) [
  | inl less ↦
      let c = least-Chosen r rails h.0 h.1 in
      let le : LeFrac r.1 best.1 = ground (arith, less) in
      rw (less, least)
        (record {
          one = inr c.one;
          first = LeFrac-trans _ r.1 best.1 h.0 c.first le;
          rest = (c.first, c.rest);
          den = c.den;
        })
  | inr more ↦
      let c = least-Chosen best rails pos h.1 in
      let le : LeFrac best.1 r.1 = ground (arith, more) in
      rw (more, least)
        (record {
          one = elim c.one [ inl e ↦ inl e | inr m ↦ inr (inr m) ];
          first = c.first;
          rest = (LeFrac-trans _ best.1 r.1 pos c.first le, c.rest);
          den = c.den;
        })
]

count_below_none :
    (threshold : Frac) (rails : List Rail)
    → All (λ (r : Rail). LeFrac threshold r.1) rails
    → count_below threshold rails ≡ 0
unfolding count_below
count_below_none threshold [] h = refl
count_below_none threshold (r ∷ rails) h = ground (arith, count_below_none threshold rails h.1)

count_below_one :
    (threshold : Frac) (rail : Rail) (rails : List Rail)
    → OneOf rail rails
    → lt_frac rail.1 threshold ≡ true
    → 0 < count_below threshold rails
unfolding count_below
count_below_one threshold rail [] m h = absurd m
count_below_one threshold rail (r ∷ rails) (inl e) h = rw (← e) (ground (arith, h))
count_below_one threshold rail (r ∷ rails) (inr m) h =
    ground (arith, count_below_one threshold rail rails m h)

-- What the choice of a rail means, with the number of the idle rails.
abbrev pub IsChoice : Frac → List Rail → Option ℕ → ℕ → Type 0
IsChoice threshold rails none count = All (λ (r : Rail). LeFrac threshold r.1) rails × (count ≡ 0)
IsChoice threshold rails (some name) count =
    (util : Frac) × OneOf (name, util) rails
    × (lt_frac util threshold ≡ true)
    × IsLeast (name, util) rails
    × (0 < count)

pick_rail-IsChoice :
    (threshold : Frac) (rails : List Rail)
    → HasDens rails
    → IsChoice threshold rails (pick_rail threshold rails) (count_below threshold rails)
unfolding pick_rail count_below
pick_rail-IsChoice threshold [] h = (tt, refl)
pick_rail-IsChoice threshold (r ∷ rails) h =
    let best = least r rails in
    let c = least-Chosen r rails h.0 h.1 in
    elim (Bool-cases (le_frac threshold best.1)) [
      | inl full ↦
          let le : LeFrac threshold best.1 = ground (arith, full) in
          let all = IsLeast-trans (0, threshold) best (r ∷ rails) c.den le (c.first, c.rest) in
          rw (full, pick_rail) (all, count_below_none threshold (r ∷ rails) all)
      | inr idle ↦
          let less : lt_frac best.1 threshold ≡ true = ground (arith, idle) in
          rw (idle, pick_rail)
            (
              best.1,
              c.one,
              less,
              (c.first, c.rest),
              count_below_one threshold best (r ∷ rails) c.one less,
            )
    ]

rails-HasDens :
    (m : NetworkMonitor) (nics : List Nic)
    → 0 < m.link_speed_bps.num
    → All (λ (nic : Nic). 0 < nic.ema.den) nics
    → HasDens (map (λ (nic : Nic). (nic.name, util_of m nic.ema)) nics)
rails-HasDens m [] pos h = tt
rails-HasDens m (nic ∷ nics) pos h = (
  mul_pos (nic.ema.den * 1) m.link_speed_bps.num (omega (arith, h.0)) pos,
  rails-HasDens m nics pos h.1,
)

-- With NICs, the rail that is selected is below the threshold, none has less, and there are idle
-- rails; where none is selected, every rail has reached the threshold, and the number of idle rails
-- is 0.
pub select_idle_rail-IsChoice :
    (m : NetworkMonitor)
    → 0 < m.link_speed_bps.num
    → All (λ (nic : Nic). 0 < nic.ema.den) m.nics
    → simulated m ≡ false
    → IsChoice m.congestion_threshold (per_rail_util m) (select_idle_rail m) (count_idle_rails m)
unfolding select_idle_rail count_idle_rails per_rail_util
select_idle_rail-IsChoice m pos dens real =
    rw (real, select_idle_rail, count_idle_rails, per_rail_util)
      (pick_rail-IsChoice m.congestion_threshold _ (rails-HasDens m m.nics pos dens))

leb-false : (a b : ℕ) → leb a b ≡ false → b < a
leb-false a b h = ground arith

fits :
    (b bd t td e ed : ℕ)
    → b * (td * ed) ≤ (t * ed - e * td) * bd
    → 0 < td
    → 0 < ed
    → (b ≡ 0) ⊎ ((b * ed + e * bd) * td ≤ t * (bd * ed))
fits b bd t td e ed h p q = elim (Bool-cases (leb (e * td) (t * ed))) [
  | inl le ↦
      let d : t * ed - e * td + e * td ≡ t * ed = ground (arith, le) in
      let k : (t * ed - e * td + e * td) * bd ≡ t * ed * bd = ap (λ n. n * bd) d in
      inr (omega (arith, h, k))
  | inr gt ↦
      let d : t * ed - e * td ≡ 0 = ground (arith, gt) in
      let k : (t * ed - e * td) * bd ≡ 0 = rw d (omega arith) in
      let z : b * (td * ed) ≡ 0 = omega (arith, h, k) in
      inl (no_factor b (td * ed) z (mul_pos td ed p q))
]
  where
    no_factor : (b n : ℕ) → b * n ≡ 0 → 0 < n → b ≡ 0
    no_factor b n z p = grind arith

exceeds :
    (b bd t td e ed : ℕ)
    → (t * ed - e * td) * bd < b * (td * ed)
    → t * (bd * ed) < (b * ed + e * bd) * td
exceeds b bd t td e ed h = elim (Bool-cases (leb (e * td) (t * ed))) [
  | inl le ↦
      let d : t * ed - e * td + e * td ≡ t * ed = ground (arith, le) in
      let k : (t * ed - e * td + e * td) * bd ≡ t * ed * bd = ap (λ n. n * bd) d in
      omega (arith, h, k)
  | inr gt ↦
      let less : t * ed ≤ e * td = ground (arith, gt) in
      let k = mul-le-mul_right bd less in omega (arith, h, k)
]

-- What the total and the flush come to, in bits per second, against the threshold.
abbrev pub total_with : Frac → NetworkMonitor → Frac
total_with flush_bps m =
    Frac.add (Frac.mul flush_bps (whole 8)) (Frac.mul m.total_bps_ema (whole 8))

abbrev pub threshold_bits : NetworkMonitor → Frac
threshold_bits m = Frac.mul m.link_speed_bps m.congestion_threshold

-- What a forecast means for a flush at this rate.
abbrev pub Foretells : Frac → NetworkMonitor → Forecast → Type 0
Foretells flush_bps m infinite =
    (m.io_allowed ≡ true)
    × ((flush_bps.num ≡ 0) ⊎ LeFrac (total_with flush_bps m) (threshold_bits m))
Foretells flush_bps m (in_ms time) =
    (m.io_allowed ≡ false) × (time ≡ whole 0)
    ⊎ (m.io_allowed ≡ true) × (lt_frac (threshold_bits m) (total_with flush_bps m) ≡ true)

-- With NICs, the forecast is infinite only where the gate is open and the flush, on top of the
-- average total, stays within the threshold; it is a time where the gate is shut, and then 0, or
-- where the two together exceed the threshold.
pub predict_congestion_ms-Foretells :
    (flush_bps : Frac) (m : NetworkMonitor)
    → 0 < (threshold_bits m).den
    → 0 < m.total_bps_ema.den
    → simulated m ≡ false
    → Foretells flush_bps m (predict_congestion_ms flush_bps m)
unfolding predict_congestion_ms headroom
predict_congestion_ms-Foretells flush_bps m pos den real = elim (Bool-cases m.io_allowed) [
  | inl free ↦ elim (Bool-cases (le_frac (Frac.mul flush_bps (whole 8)) (headroom m))) [
    | inl fit ↦
        rw (real, free, fit, predict_congestion_ms)
          (
            refl,
            (let h =
                  fits (flush_bps.num * 8) (flush_bps.den * 1) (threshold_bits m).num
                    (threshold_bits m).den (m.total_bps_ema.num * 8) (m.total_bps_ema.den * 1)
                    (leb→le _ _ fit) pos (omega (arith, den)) in
                omega (arith, h)),
          )
    | inr over ↦
        rw (real, free, over, predict_congestion_ms)
          (inr (
            refl,
            lt→ltb _ _ (
                exceeds (flush_bps.num * 8) (flush_bps.den * 1) (threshold_bits m).num
                  (threshold_bits m).den (m.total_bps_ema.num * 8) (m.total_bps_ema.den * 1)
                  (leb-false _ _ over)),
          ))
  ]
  | inr shut ↦ rw (real, shut, predict_congestion_ms) (inl (refl, refl))
]
