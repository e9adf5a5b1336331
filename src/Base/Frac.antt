-- ===== src/Base/Frac.antt =====
-- Non-negative fractions, for the source's floats read as the exact numbers that they stand for. A
-- divisor is in the source a `max` with a positive number, so no denominator is 0.
use working_tempo.Base.Tests.{ltb, leb, if◌then◌else◌}
use Prim.Native.Nat.{ℕ, ◌+◌, ◌-◌, ◌*◌, ◌≤◌}
use mathlib.Core.Bool.{Bool}
use native.Mathlib.Omega.{arith}
use native.Mathlib.Nat.{mul-le-mul_right}
use Prim.Native.Nat.{◌<◌}
use mathlib.Core.Logic.{inl, inr}
use working_tempo.Base.Tests.{Bool-cases, leb→le}

pub record Frac : Type 0 where
  pub num : ℕ
  pub den : ℕ

abbrev pub frac : ℕ → ℕ → Frac
frac n d = record { num = n; den = d }

-- A whole number.
abbrev pub whole : ℕ → Frac
whole n = frac n 1

abbrev pub add : Frac → Frac → Frac
add a b = frac (a.num * b.den + b.num * a.den) (a.den * b.den)

-- `max(0.0, a - b)`
abbrev pub sub : Frac → Frac → Frac
sub a b = frac (a.num * b.den - b.num * a.den) (a.den * b.den)

abbrev pub mul : Frac → Frac → Frac
mul a b = frac (a.num * b.num) (a.den * b.den)

abbrev pub div : Frac → Frac → Frac
div a b = frac (a.num * b.den) (a.den * b.num)

abbrev pub lt_frac : Frac → Frac → Bool
lt_frac a b = ltb (a.num * b.den) (b.num * a.den)

abbrev pub le_frac : Frac → Frac → Bool
le_frac a b = leb (a.num * b.den) (b.num * a.den)

-- As a statement.
abbrev pub LeFrac : Frac → Frac → Type 0
LeFrac a b = a.num * b.den ≤ b.num * a.den

-- Python's `min` and `max` keep the first argument where the two are equal.
abbrev pub min_frac : Frac → Frac → Frac
min_frac a b = if lt_frac b a then b else a

abbrev pub max_frac : Frac → Frac → Frac
max_frac a b = if lt_frac a b then b else a

abbrev pub is_zero : Frac → Bool
is_zero a = leb a.num 0

pub min_frac-le_left : (a b : Frac) → LeFrac (min_frac a b) a
min_frac-le_left a b = ground arith

pub min_frac-le_right : (a b : Frac) → LeFrac (min_frac a b) b
min_frac-le_right a b = ground arith

pub le-max_frac_left : (a b : Frac) → LeFrac a (max_frac a b)
le-max_frac_left a b = ground arith

pub LeFrac-trans : (a b c : Frac) → 0 < b.den → LeFrac a b → LeFrac b c → LeFrac a c
LeFrac-trans a b c pos h k = elim (Bool-cases (leb (a.num * c.den) (c.num * a.den))) [
  | inl le ↦ leb→le _ _ le
  | inr gt ↦
      let more : c.num * a.den + 1 ≤ a.num * c.den = ground (arith, gt) in
      let x = mul-le-mul_right c.den h in
      let y = mul-le-mul_right a.den k in
      let z = mul-le-mul_right b.den more in absurd (omega (arith, x, y, z))
]

pub mul_pos : (a b : ℕ) → 0 < a → 0 < b → 0 < a * b
mul_pos a b p q = grind arith

-- A sum grows with each of its terms, and a product with its second factor.
pub add-LeFrac_left : (a b c : Frac) → LeFrac a b → LeFrac (add a c) (add b c)
add-LeFrac_left a b c h = let x = mul-le-mul_right (c.den * c.den) h in omega (arith, x)

pub add-LeFrac_right : (a b c : Frac) → LeFrac a b → LeFrac (add c a) (add c b)
add-LeFrac_right a b c h = let x = mul-le-mul_right (c.den * c.den) h in omega (arith, x)

pub mul-LeFrac : (a b c : Frac) → LeFrac a b → LeFrac (mul c a) (mul c b)
mul-LeFrac a b c h = let x = mul-le-mul_right (c.num * c.den) h in omega (arith, x)

pub add-LeFrac_self : (a c : Frac) → LeFrac a (add a c)
add-LeFrac_self a c = omega arith
