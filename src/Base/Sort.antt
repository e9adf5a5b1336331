-- ===== src/Base/Sort.antt =====
-- Python's `sorted` on a list of numbers: by insertion, since equal numbers cannot be told apart.
use working_tempo.Base.Tests.{leb, ◌==◌, if◌then◌else◌, Bool-cases, leb→le}
use working_tempo.Base.Lists.{length, All, elem}
use Prim.Native.Nat.{ℕ, ◌+◌, ◌≤◌}
use mathlib.Core.Path.{◌≡◌, refl}
use mathlib.Core.Logic.{inl, inr}
use mathlib.Core.Bool.{true}
use mathlib.Core.List.{List, [], ◌∷◌}
use native.Mathlib.Omega.{arith}

unfoldable pub insert_sorted : ℕ → List ℕ → List ℕ
insert_sorted a [] = a ∷ []
insert_sorted a (x ∷ xs) = if leb a x then a ∷ x ∷ xs else x ∷ insert_sorted a xs

unfoldable pub sorted : List ℕ → List ℕ
unfolding insert_sorted
sorted [] = []
sorted (x ∷ xs) = insert_sorted x (sorted xs)

-- Each number is at most all that follow it.
abbrev pub IsSorted : List ℕ → Type 0
IsSorted [] = Unit
IsSorted (x ∷ xs) = All (λ y. x ≤ y) xs × IsSorted xs

All-le_trans : (a b : ℕ) (xs : List ℕ) → a ≤ b → All (λ y. b ≤ y) xs → All (λ y. a ≤ y) xs
All-le_trans a b [] h k = tt
All-le_trans a b (x ∷ xs) h k = (omega arith, All-le_trans a b xs h k.1)

All-insert_sorted :
    (a b : ℕ) (xs : List ℕ) → a ≤ b → All (λ y. a ≤ y) xs → All (λ y. a ≤ y) (insert_sorted b xs)
unfolding insert_sorted
All-insert_sorted a b [] h k = (h, tt)
All-insert_sorted a b (x ∷ xs) h k = elim (Bool-cases (leb b x)) [
  | inl le ↦ rw (le, insert_sorted) (h, k)
  | inr gt ↦ rw (gt, insert_sorted) (k.0, All-insert_sorted a b xs h k.1)
]

insert_sorted-IsSorted : (a : ℕ) (xs : List ℕ) → IsSorted xs → IsSorted (insert_sorted a xs)
unfolding insert_sorted
insert_sorted-IsSorted a [] h = (tt, tt)
insert_sorted-IsSorted a (x ∷ xs) h = elim (Bool-cases (leb a x)) [
  | inl le ↦
      let l : a ≤ x = leb→le a x le in rw (le, insert_sorted) ((l, All-le_trans a x xs l h.0), h)
  | inr gt ↦
      rw (gt, insert_sorted)
        (All-insert_sorted x a xs (ground (arith, gt)) h.0, insert_sorted-IsSorted a xs h.1)
]

-- The result is in order.
pub sorted-IsSorted : (xs : List ℕ) → IsSorted (sorted xs)
unfolding sorted
sorted-IsSorted [] = tt
sorted-IsSorted (x ∷ xs) = insert_sorted-IsSorted x (sorted xs) (sorted-IsSorted xs)

elem-insert_sorted :
    (p a : ℕ) (xs : List ℕ) → elem p (insert_sorted a xs) ≡ (if p == a then true else elem p xs)
unfolding insert_sorted
elem-insert_sorted p a [] = refl
elem-insert_sorted p a (x ∷ xs) = ground (arith, elem-insert_sorted p a xs)

-- It holds the same numbers.
pub elem-sorted : (p : ℕ) (xs : List ℕ) → elem p (sorted xs) ≡ elem p xs
unfolding sorted
elem-sorted p [] = refl
elem-sorted p (x ∷ xs) = ground (arith, elem-insert_sorted p x (sorted xs), elem-sorted p xs)

length-insert_sorted : (a : ℕ) (xs : List ℕ) → length (insert_sorted a xs) ≡ length xs + 1
unfolding insert_sorted
length-insert_sorted a [] = omega arith
length-insert_sorted a (x ∷ xs) = ground (arith, length-insert_sorted a xs)

pub length-sorted : (xs : List ℕ) → length (sorted xs) ≡ length xs
unfolding sorted
length-sorted [] = refl
length-sorted (x ∷ xs) = omega (arith, length-insert_sorted x (sorted xs), length-sorted xs)
