-- ===== src/Cache/Ring/Bisect.antt =====
-- `_bisect` of tempo/p2p_cache.py finds the successor of a hash among the sorted points.
use working_tempo.Base.{
  ℕ, zero, suc, ◌+◌, ◌/◌, ◌%◌, ◌≤◌, ◌<◌, ◌≡◌, refl, inl, inr, max, List, [], ◌∷◌, arith, ltb,
  length, get_or, All, Bool-cases, if◌then◌else◌,
}
use native.Mathlib.Nat.{mod-lt}
use working_tempo.Base.Sort.{IsSorted}
use working_tempo.Cache.Ring.{Ring, bisect_loop, bisect}

-- How many points lie below the hash.
abbrev pub count_below : ℕ → List ℕ → ℕ
count_below h [] = 0
count_below h (p ∷ ps) = (if ltb p h then 1 else 0) + count_below h ps

pub count_below-le : (h : ℕ) (ks : List ℕ) → count_below h ks ≤ length ks
count_below-le h [] = omega arith
count_below-le h (p ∷ ps) = ground (arith, count_below-le h ps)

none_below : (h p : ℕ) (ks : List ℕ) → h ≤ p → All (λ y. p ≤ y) ks → count_below h ks ≡ 0
none_below h p [] l a = refl
none_below h p (q ∷ ks) l a = ground (arith, none_below h p ks l a.1, a.0)

-- In order, the points below the hash come first.
below_then :
    (h m : ℕ) (ks : List ℕ) → IsSorted ks → m < length ks → get_or ks m 0 < h → m < count_below h ks
below_then h m [] s l b = absurd (omega arith)
below_then h zero (p ∷ ks) s l b = ground arith
below_then h (suc m) (p ∷ ks) s l b =
    let tail : m < count_below h ks = below_then h m ks s.1 (omega arith) b in
    elim (Bool-cases (ltb p h)) [
      | inl lt ↦ rw lt (omega arith)
      | inr ge ↦ absurd (omega (arith, none_below h p ks (ground (arith, ge)) s.0))
    ]

above_then :
    (h m : ℕ) (ks : List ℕ) → IsSorted ks → m < length ks → h ≤ get_or ks m 0 → count_below h ks ≤ m
above_then h m [] s l b = absurd (omega arith)
above_then h zero (p ∷ ks) s l b = ground (arith, none_below h p ks b s.0)
above_then h (suc m) (p ∷ ks) s l b =
    let tail : count_below h ks ≤ m = above_then h m ks s.1 (omega arith) b in ground arith

bisect_loop_lem :
    (fuel h : ℕ) (ks : List ℕ) (lo hi : ℕ)
    → IsSorted ks
    → hi ≤ length ks
    → lo ≤ count_below h ks
    → count_below h ks ≤ hi
    → hi ≤ lo + fuel
    → bisect_loop fuel h ks lo hi ≡ count_below h ks
unfolding bisect_loop
bisect_loop_lem zero h ks lo hi s l a b f = omega arith
bisect_loop_lem (suc fuel) h ks lo hi s l a b f =
    let mid = (lo + hi) / 2 in
    elim (Bool-cases (ltb lo hi)) [
      | inr done ↦ rw (done, bisect_loop) (ground (arith, done))
      | inl more ↦
          let m : mid < hi = ground (arith, more) in
          elim (Bool-cases (ltb (get_or ks mid 0) h)) [
            | inl lt ↦
                let q : get_or ks mid 0 < h = ground (arith, lt) in
                rw (more, lt, bisect_loop)
                  (bisect_loop_lem fuel h ks (mid + 1) hi s l
                    (omega (arith, below_then h mid ks s (omega arith) q)) b (omega arith))
            | inr ge ↦
                let q : h ≤ get_or ks mid 0 = ground (arith, ge) in
                rw (more, ge, bisect_loop)
                  (bisect_loop_lem fuel h ks lo mid s (omega arith) a
                    (above_then h mid ks s (omega arith) q) (omega arith))
          ]
    ]

-- On sorted points the search ends within its fuel, at the number of points below the hash: the
-- index of the first point that is not below it, or 0 if there is none.
pub bisect-count_below :
    (r : Ring) (h : ℕ)
    → IsSorted r.sorted_keys
    → bisect r h ≡ count_below h r.sorted_keys % max 1 (length r.sorted_keys)
unfolding bisect
bisect-count_below r h s = rw (
    bisect_loop_lem (length r.sorted_keys) h r.sorted_keys 0 (length r.sorted_keys) s (omega arith)
      (omega arith) (count_below-le h r.sorted_keys) (omega arith))

-- The search answers an index of the points.
pub bisect-lt : (r : Ring) (h : ℕ) → 0 < length r.sorted_keys → bisect r h < length r.sorted_keys
unfolding bisect
bisect-lt r h pos = grind (arith, mod-lt)
