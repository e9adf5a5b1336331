-- ===== src/Cache/Ring/Walk.antt =====
-- `get_nodes` of tempo/p2p_cache.py: the replicas of a key.
use working_tempo.Base.{
  ℕ, zero, suc, ◌+◌, ◌-◌, ◌%◌, ◌≤◌, ◌<◌, ◌≡◌, refl, ◌⊎◌, inl, inr, max, true, false, Option, some,
  List, [], ◌∷◌, ◌++◌, arith, leb, length, get_elem?, elem, All, Distinct, if◌then◌else◌, ◌==◌,
  Bool-cases, Option-cases, none, none≢some, length-append, ◌∙◌, false≢true, length-eq-zero,
  Nat-cases, sym, ap, subst, ltb,
}
use native.Mathlib.Nat.{mod-lt, mod-eq_of_lt, mod-eq-sub-mod}
use working_tempo.Base.Dict.{Dict, lookup}
use working_tempo.Base.Sort.{elem-sorted}
use working_tempo.Cache.Ring.{Ring, keys, bisect, walk, add_owner, get_nodes}
use working_tempo.Cache.Ring.Bisect.{bisect-lt}
use working_tempo.Cache.Ring.Members.{IsRing, elem-keys}

elem-append :
    (v node : ℕ) (xs : List ℕ) → elem v (xs ++ node ∷ []) ≡ (if v == node then true else elem v xs)
elem-append v node [] = refl
elem-append v node (x ∷ xs) = ground (arith, elem-append v node xs)

append-Distinct :
    (node : ℕ) (xs : List ℕ) → Distinct xs → elem node xs ≡ false → Distinct (xs ++ node ∷ [])
append-Distinct node [] d e = (refl, tt)
append-Distinct node (x ∷ xs) d e =
    (ground (arith, elem-append x node xs, e, d.0), append-Distinct node xs d.1 (ground (arith, e)))

All-append {ℓ} :
    (P : ℕ → Type ℓ) (node : ℕ) (xs : List ℕ) → All P xs → P node → All P (xs ++ node ∷ [])
All-append P node [] a p = (p, tt)
All-append P node (x ∷ xs) a p = (a.0, All-append P node xs a.1 p)

get_elem?_total :
    (ks : List ℕ) (j : ℕ) → j < length ks → (p : ℕ) × (get_elem? ks j ≡ some p) × (elem p ks ≡ true)
get_elem?_total [] j h = absurd (omega arith)
get_elem?_total (k ∷ ks) zero h = (k, refl, ground arith)
get_elem?_total (k ∷ ks) (suc j) h =
    let (p, e, m) = get_elem?_total ks j (omega arith) in (p, e, ground (arith, m))

elem_index :
    (p : ℕ) (ks : List ℕ) → elem p ks ≡ true → (j : ℕ) × (j < length ks) × (get_elem? ks j ≡ some p)
elem_index p [] h = cc
elem_index p (k ∷ ks) h = elim (Bool-cases (p == k)) [
  | inl same ↦ (0, omega arith, ground (arith, same))
  | inr other ↦
      let (j, l, e) = elem_index p ks (ground (arith, h, other)) in (suc j, omega arith, e)
]

-- A walk of `len` steps round a circle of `len` places comes to each place.
reached : (idx j len : ℕ) → idx < len → j < len → (i : ℕ) × (i < len) × ((idx + i) % len ≡ j)
reached idx j len a b = elim (Bool-cases (leb idx j)) [
  | inl le ↦
      let l : idx ≤ j = ground (arith, le) in
      let e : idx + (j - idx) ≡ j = omega arith in (j - idx, omega arith, rw e (mod-eq_of_lt b))
  | inr gt ↦
      let l : j < idx = ground (arith, gt) in
      let e : idx + (j + len - idx) ≡ j + len = omega arith in
      let back : j + len - len ≡ j = omega arith in
      (j + len - idx, omega arith, rw e (mod-eq-sub-mod (omega arith) ∙ rw back (mod-eq_of_lt b)))
]

module _ (r : Ring) (h : IsRing r) (idx n : ℕ) where
  abbrev Held : ℕ → Type 0
  Held v = (p : ℕ) × (lookup p r.points ≡ some v)

  abbrev len : ℕ
  len = length r.sorted_keys

  -- The ranks of the first `i` points from `idx` on are among the owners.
  abbrev Visited : ℕ → List ℕ → Type 0
  Visited i owners =
      (m : ℕ) (p v : ℕ)
      → m < i
      → get_elem? r.sorted_keys ((idx + m) % len) ≡ some p
      → lookup p r.points ≡ some v
      → elem v owners ≡ true

  abbrev Good : List ℕ → Type 0
  Good owners = Distinct owners × All Held owners × (length owners ≤ max 1 n)

  point_of :
      (i : ℕ)
      → 0 < len
      → (p v : ℕ) × (get_elem? r.sorted_keys ((idx + i) % len) ≡ some p)
        × (lookup p r.points ≡ some v)
  point_of i pos =
      let (p, e, m) = get_elem?_total r.sorted_keys ((idx + i) % len) (mod-lt (idx + i) pos) in
      let held : elem p (keys r.points) ≡ true =
        rw (← elem-sorted p (keys r.points), ← h.in_order) m in
      let (v, f) = elem-keys p r.points held in (p, v, e, f)

  extend :
      (node : ℕ) (owners : List ℕ)
      → Held node
      → Distinct owners
      → All Held owners
      → Distinct (add_owner node owners)
        × All Held (add_owner node owners)
        × (length (add_owner node owners) ≤ length owners + 1)
  unfolding add_owner
  extend node owners held d a = elim (Bool-cases (elem node owners)) [
    | inl old ↦ rw old (d, a, omega arith)
    | inr new ↦ rw new (
      append-Distinct node owners d new,
      All-append Held node owners a held,
      omega (arith, length-append owners (node ∷ [])),
    )
  ]

  elem-add_owner :
      (v node : ℕ) (owners : List ℕ)
      → elem v (add_owner node owners) ≡ (if v == node then true else elem v owners)
  unfolding add_owner
  elem-add_owner v node owners = elim (Bool-cases (elem node owners)) [
    | inl old ↦ rw old (ground (arith, old))
    | inr new ↦ rw new (elem-append v node owners)
  ]

  visit :
      (i node p : ℕ) (owners : List ℕ)
      → get_elem? r.sorted_keys ((idx + i) % len) ≡ some p
      → lookup p r.points ≡ some node
      → Visited i owners
      → Visited (i + 1) (add_owner node owners)
  visit i node p owners e f seen m q v lt g k = elim (Bool-cases (ltb m i)) [
    | inl before ↦
        let old : elem v owners ≡ true = seen m q v (ground (arith, before)) g k in
        ground (arith, old, elem-add_owner v node owners)
    | inr not_before ↦
        let now : m ≡ i = ground (arith, not_before, lt) in
        let same : some p ≡ some q =
          sym e ∙ ap (λ j. get_elem? r.sorted_keys ((idx + j) % len)) (sym now) ∙ g in
        let pq : p ≡ q = cc in
        let vn : some node ≡ some v = sym f ∙ ap (λ j. lookup j r.points) pq ∙ k in
        ground (arith, vn, elem-add_owner v node owners)
  ]

  walk_lem :
      (left i : ℕ) (owners : List ℕ)
      → i + left ≡ len
      → Good owners
      → Visited i owners
      → (length owners < n) ⊎ (owners ≡ [])
      → (out : List ℕ) × (walk left i idx r n owners ≡ some out)
        × Good out
        × (length out < n → Visited len out)
  unfolding walk
  walk_lem zero i owners end good seen room =
      let e : i ≡ len = omega arith in
      (owners, refl, good, λ _. subst (λ j. Visited j owners) e seen)
  walk_lem (suc left) i owners end good seen room =
      let (p, node, e, f) = point_of i (omega arith) in
      let out = add_owner node owners in
      let (d, a, l) = extend node owners (p, f) good.0 good.1 in
      let bounded : length out ≤ max 1 n = out_bound owners (length out) l room in
      let here = visit i node p owners e f seen in
      elim (Bool-cases (leb n (length out))) [
        | inl full ↦
            (out, rw (e, f, full, walk), (d, a, bounded), λ lt. absurd (ground (arith, full, lt)))
        | inr more ↦
            rw (e, f, more, walk)
              (walk_lem left (i + 1) out (omega arith) (d, a, bounded) here
                (inl (ground (arith, more))))
      ]
    where
      out_bound :
          (owners : List ℕ) (k : ℕ)
          → k ≤ length owners + 1
          → (length owners < n) ⊎ (owners ≡ [])
          → k ≤ max 1 n
      out_bound owners k l (inl lt) = omega arith
      out_bound owners k l (inr e) = omega (arith, ap (λ o. length o) e)

keys-elem : (p v : ℕ) (d : Dict ℕ) → lookup p d ≡ some v → elem p (keys d) ≡ true
keys-elem p v [] h = cc
keys-elem p v ((q, w) ∷ d) h = ground (arith, keys-elem p v d)

on_ring : (p v : ℕ) (r : Ring) → IsRing r → lookup p r.points ≡ some v → elem p r.sorted_keys ≡ true
on_ring p v r h e = rw (h.in_order, elem-sorted p (keys r.points)) (keys-elem p v r.points e)

module _ (point : ℕ → ℕ → ℕ) (kp : ℕ → ℕ) (r : Ring) (h : IsRing r) (key n : ℕ) where
  abbrev IsReplicas : List ℕ → Type 0
  IsReplicas out =
      Distinct out
      × All (λ v. (p : ℕ) × (lookup p r.points ≡ some v)) out
      × (length out ≤ max 1 n)
      × (length out < n → (p v : ℕ) → lookup p r.points ≡ some v → elem v out ≡ true)

  on_empty : r.sorted_keys ≡ [] → IsReplicas []
  on_empty e = (
    tt,
    tt,
    omega arith,
    λ _ p v f. absurd (false≢true (sym (ap (elem p) e) ∙ on_ring p v r h f)),
  )

  on_points :
      0 < length r.sorted_keys
      → (out : List ℕ) × (walk (length r.sorted_keys) 0 (bisect r (kp key)) r n [] ≡ some out)
        × IsReplicas out
  on_points pos =
      let idx = bisect r (kp key) in
      let (out, e, good, all_seen) =
        walk_lem r h idx n (length r.sorted_keys) 0 [] (omega arith) (tt, tt, omega arith)
          (λ m p v lt. absurd (omega arith)) (inr refl) in
      (
        out,
        e,
        (
          good.0,
          good.1,
          good.2,
          λ few p v f.
              (let (j, lt, g) = elem_index p r.sorted_keys (on_ring p v r h f) in
                let (m, lm, back) =
                  reached idx j (length r.sorted_keys) (bisect-lt r (kp key) pos) lt in
                all_seen few m p v lm (rw back g) f),
        ),
      )

  add_owner-some : (node : ℕ) (owners : List ℕ) → 0 < length (add_owner node owners)
  unfolding add_owner
  add_owner-some node [] = ground (arith, length-append [] (node ∷ []))
  add_owner-some node (o ∷ owners) = ground (arith, length-append (o ∷ owners) (node ∷ []))

  -- A round adds an owner, or there is one already.
  walk-some :
      (left i idx m : ℕ) (owners out : List ℕ)
      → (0 < left) ⊎ (0 < length owners)
      → walk left i idx r m owners ≡ some out
      → 0 < length out
  unfolding walk
  walk-some zero i idx m owners out (inl none_left) e = absurd (omega (arith, none_left))
  walk-some zero i idx m owners out (inr some_owner) e =
      let same : owners ≡ out = cc in subst (λ (o : List ℕ). 0 < length o) same some_owner
  walk-some (suc left) i idx m owners out h e =
      elim (Option-cases (get_elem? r.sorted_keys ((idx + i) % length r.sorted_keys))) [
        | inl missing ↦
            let w : walk (suc left) i idx r m owners ≡ none = rw (missing, walk) refl in
            absurd (none≢some (sym w ∙ e))
        | inr (p, at) ↦ elim (Option-cases (lookup p r.points)) [
          | inl unknown ↦
              let w : walk (suc left) i idx r m owners ≡ none = rw (at, walk, unknown) refl in
              absurd (none≢some (sym w ∙ e))
          | inr (node, owned) ↦ elim (Bool-cases (leb m (length (add_owner node owners)))) [
            | inl enough ↦
                let w : walk (suc left) i idx r m owners ≡ some (add_owner node owners) =
                  rw (at, walk, owned, enough) refl in
                let same = sym w ∙ e in
                let its : add_owner node owners ≡ out = cc in
                subst (λ (o : List ℕ). 0 < length o) its (add_owner-some node owners)
            | inr few ↦
                let w : walk (suc left) i idx r m owners
                    ≡ walk left (i + 1) idx r m (add_owner node owners) =
                  rw (at, walk, owned, few) refl in
                walk-some left (i + 1) idx m (add_owner node owners) out
                  (inr (add_owner-some node owners)) (sym w ∙ e)
          ]
        ]
      ]

  get_nodes_empty : r.sorted_keys ≡ [] → get_nodes point kp key n r ≡ some []
  unfolding get_nodes
  get_nodes_empty e = ground (arith, e)

  get_nodes_points :
      0 < length r.sorted_keys
      → get_nodes point kp key n r ≡ walk (length r.sorted_keys) 0 (bisect r (kp key)) r n []
  unfolding get_nodes
  get_nodes_points pos = by_points r.sorted_keys pos
    where
      by_points :
          (ks : List ℕ)
          → 0 < length ks
          → elim ks as (λ _. Option (List ℕ)) [
            | [] ↦ some []
            | _ ∷ _ ↦ walk (length r.sorted_keys) 0 (bisect r (kp key)) r n []
          ]
            ≡ walk (length r.sorted_keys) 0 (bisect r (kp key)) r n []
      by_points [] l = absurd (omega arith)
      by_points (k ∷ ks) l = refl

  -- On a ring the replicas of a key are found without an error: different ranks of the ring, at least
  -- one if the ring has a point, at most `n` or, where `n` is 0, one, and every rank of the ring where
  -- fewer than `n` are found.
  pub get_nodes_lem :
      (out : List ℕ) × (get_nodes point kp key n r ≡ some out)
      × Distinct out
      × All (λ v. (p : ℕ) × (lookup p r.points ≡ some v)) out
      × (length out ≤ max 1 n)
      × (0 < length r.sorted_keys → 0 < length out)
      × (length out < n → (p v : ℕ) → lookup p r.points ≡ some v → elem v out ≡ true)
  get_nodes_lem = elim (Nat-cases (length r.sorted_keys)) [
    | inl empty ↦
        let e : r.sorted_keys ≡ [] = length-eq-zero r.sorted_keys empty in
        let (d, a, l, all_seen) = on_empty e in
        ([], get_nodes_empty e, d, a, l, (λ pos. absurd (omega (arith, empty, pos))), all_seen)
    | inr pos ↦
        let (out, e, (d, a, l, all_seen)) = on_points pos in
        let found = walk-some (length r.sorted_keys) 0 (bisect r (kp key)) n [] out (inl pos) e in
        (out, get_nodes_points pos ∙ e, d, a, l, (λ some_point. found), all_seen)
  ]
