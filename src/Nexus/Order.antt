-- ===== src/Nexus/Order.antt =====
-- The order in which tempo/nexus_coordinator.py lets the ranks flush.
use working_tempo.Base.{
  ℕ, zero, suc, ◌+◌, ◌≤◌, ◌<◌, ◌≡◌, refl, inl, inr, true, some, List, [], ◌∷◌, arith, elem, length,
  get_elem?, All, Bool-cases, if◌then◌else◌, ltb, ◌==◌, false≢true,
}
use working_tempo.Nexus.{insert_rank, sorted_ranks, index_of}

module _ (load : ℕ → ℕ) where
  abbrev pub InOrder : List ℕ → Type 0
  InOrder [] = Unit
  InOrder (q ∷ qs) = All (λ r. load q ≤ load r) qs × InOrder qs

  All-insert_rank :
      (P : ℕ → Type 0) (r : ℕ) (qs : List ℕ) → P r → All P qs → All P (insert_rank load r qs)
  unfolding insert_rank
  All-insert_rank P r [] p a = (p, tt)
  All-insert_rank P r (q ∷ qs) p a = elim (Bool-cases (ltb (load r) (load q))) [
    | inl here ↦ rw here (p, a)
    | inr later ↦ rw later (a.0, All-insert_rank P r qs p a.1)
  ]

  All-weaken : (k m : ℕ) (qs : List ℕ) → k ≤ m → All (λ r. m ≤ load r) qs → All (λ r. k ≤ load r) qs
  All-weaken k m [] h a = tt
  All-weaken k m (q ∷ qs) h a = (omega (arith, a.0), All-weaken k m qs h a.1)

  insert_rank-InOrder : (r : ℕ) (qs : List ℕ) → InOrder qs → InOrder (insert_rank load r qs)
  unfolding insert_rank
  insert_rank-InOrder r [] o = (tt, tt)
  insert_rank-InOrder r (q ∷ qs) o = elim (Bool-cases (ltb (load r) (load q))) [
    | inl here ↦
        let le : load r ≤ load q = ground (arith, here) in
        rw here ((le, All-weaken (load r) (load q) qs le o.0), o)
    | inr later ↦
        let le : load q ≤ load r = ground (arith, later) in
        rw later (All-insert_rank (λ x. load q ≤ load x) r qs le o.0, insert_rank-InOrder r qs o.1)
  ]

  pub sorted_ranks-InOrder : (n : ℕ) → InOrder (sorted_ranks load n)
  unfolding sorted_ranks
  sorted_ranks-InOrder zero = tt
  sorted_ranks-InOrder (suc n) =
      insert_rank-InOrder n (sorted_ranks load n) (sorted_ranks-InOrder n)

  length-insert_rank : (r : ℕ) (qs : List ℕ) → length (insert_rank load r qs) ≡ length qs + 1
  unfolding insert_rank
  length-insert_rank r [] = refl
  length-insert_rank r (q ∷ qs) = ground (arith, length-insert_rank r qs)

  pub length-sorted_ranks : (n : ℕ) → length (sorted_ranks load n) ≡ n
  unfolding sorted_ranks
  length-sorted_ranks zero = refl
  length-sorted_ranks (suc n) =
      omega (arith, length-insert_rank n (sorted_ranks load n), length-sorted_ranks n)

  elem-insert_rank :
      (x r : ℕ) (qs : List ℕ)
      → elem x (insert_rank load r qs) ≡ (if x == r then true else elem x qs)
  unfolding insert_rank
  elem-insert_rank x r [] = refl
  elem-insert_rank x r (q ∷ qs) = ground (arith, elem-insert_rank x r qs)

  pub elem-sorted_ranks : (n r : ℕ) → r < n → elem r (sorted_ranks load n) ≡ true
  unfolding sorted_ranks
  elem-sorted_ranks zero r h = absurd (omega arith)
  elem-sorted_ranks (suc n) r h =
      ground (arith, elem-insert_rank r n (sorted_ranks load n), elem-sorted_ranks n r)

  -- The index of an element, and what the list has there.
  pub index_of_lem :
      (r : ℕ) (qs : List ℕ)
      → elem r qs ≡ true
      → (i : ℕ) × (index_of r qs ≡ some i) × (i < length qs) × (get_elem? qs i ≡ some r)
  unfolding index_of
  index_of_lem r [] h = absurd (false≢true h)
  index_of_lem r (q ∷ qs) h = elim (Bool-cases (r == q)) [
    | inl same ↦ rw same (0, refl, omega arith, ground (arith, same))
    | inr other ↦
        let (i, e, l, g) = index_of_lem r qs (ground (arith, h, other)) in
        rw (other, e) (suc i, refl, omega arith, g)
  ]

  get_elem-All : (P : ℕ → Type 0) (qs : List ℕ) (j r : ℕ) → All P qs → get_elem? qs j ≡ some r → P r
  get_elem-All P [] j r a e = absurd (ground (arith, e))
  get_elem-All P (q ∷ qs) zero r a e = let same : q ≡ r = ground (arith, e) in rw (← same) a.0
  get_elem-All P (q ∷ qs) (suc j) r a e = get_elem-All P qs j r a.1 e

  -- Along the order the loads do not fall.
  pub get_elem-InOrder :
      (qs : List ℕ) (i j q r : ℕ)
      → InOrder qs
      → i ≤ j
      → get_elem? qs i ≡ some q
      → get_elem? qs j ≡ some r
      → load q ≤ load r
  get_elem-InOrder [] i j q r o le a b = absurd (ground (arith, a))
  get_elem-InOrder (x ∷ qs) zero zero q r o le a b =
      let s : q ≡ r = ground (arith, a, b) in rw s (omega arith)
  get_elem-InOrder (x ∷ qs) zero (suc j) q r o le a b =
      let s : x ≡ q = ground (arith, a) in
      rw (← s) (get_elem-All (λ y. load x ≤ load y) qs j r o.0 b)
  get_elem-InOrder (x ∷ qs) (suc i) zero q r o le a b = absurd (omega arith)
  get_elem-InOrder (x ∷ qs) (suc i) (suc j) q r o le a b =
      get_elem-InOrder qs i j q r o.1 (omega arith) a b
