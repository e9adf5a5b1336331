-- ===== src/Cache/Ring/Members.antt =====
-- `add_node` and `remove_node` of tempo/p2p_cache.py: what the ring holds after them.
use working_tempo.Base.{
  ℕ, zero, suc, ◌+◌, ◌≡◌, refl, inl, inr, Bool, true, false, none, some, [], ◌∷◌, arith, elem,
  if◌then◌else◌, ◌==◌, Bool-cases,
}
use working_tempo.Base.Dict.{
  lookup-insert, lookup-erase, Dict, lookup, insert, erase, Keyed, insert-Keyed, erase-Keyed,
}
use working_tempo.Base.Sort.{sorted}
use working_tempo.Cache.Ring.{Ring, keys, add_points, remove_points, add_node, remove_node}

-- The sorted points are the keys of the map.
pub record IsRing (r : Ring) : Type 0 where
  pub keyed : Keyed r.points
  pub in_order : r.sorted_keys ≡ sorted (keys r.points)

pub elem-keys : (p : ℕ) (d : Dict ℕ) → elem p (keys d) ≡ true → (v : ℕ) × (lookup p d ≡ some v)
elem-keys p [] h = cc
elem-keys p ((q, w) ∷ d) h = elim (Bool-cases (p == q)) [
  | inl same ↦ (w, rw same)
  | inr other ↦ let (v, e) = elem-keys p d (ground (arith, h, other)) in (v, rw other e)
]

module _ (point : ℕ → ℕ → ℕ) where
  -- Is `p` one of the `left` points of the rank from the virtual node `i` on?
  abbrev pub owns : ℕ → ℕ → ℕ → ℕ → Bool
  owns zero i rank p = false
  owns (suc left) i rank p = if p == point rank i then true else owns left (i + 1) rank p

  pub add_points-Keyed :
      (key_point : ℕ → ℕ) (left i rank : ℕ) (d : Dict ℕ)
      → Keyed d
      → Keyed (add_points point key_point left i rank d)
  unfolding add_points
  add_points-Keyed kp zero i rank d u = u
  add_points-Keyed kp (suc left) i rank d u =
      add_points-Keyed kp left (i + 1) rank (insert (point rank i) rank d)
        (insert-Keyed (point rank i) rank d u)

  pub remove_points-Keyed :
      (key_point : ℕ → ℕ) (left i rank : ℕ) (d : Dict ℕ)
      → Keyed d
      → Keyed (remove_points point key_point left i rank d)
  unfolding remove_points
  remove_points-Keyed kp zero i rank d u = u
  remove_points-Keyed kp (suc left) i rank d u =
      remove_points-Keyed kp left (i + 1) rank (erase (point rank i) d)
        (erase-Keyed (point rank i) d u)

  lookup-add_points :
      (key_point : ℕ → ℕ) (p left i rank : ℕ) (d : Dict ℕ)
      → lookup p (add_points point key_point left i rank d)
        ≡ (if owns left i rank p then some rank else lookup p d)
  unfolding add_points
  lookup-add_points kp p zero i rank d = refl
  lookup-add_points kp p (suc left) i rank d = ground (
    arith,
    lookup-add_points kp p left (i + 1) rank (insert (point rank i) rank d),
    lookup-insert p (point rank i) rank d,
  )

  lookup-remove_points :
      (key_point : ℕ → ℕ) (p left i rank : ℕ) (d : Dict ℕ)
      → Keyed d
      → lookup p (remove_points point key_point left i rank d)
        ≡ (if owns left i rank p then none else lookup p d)
  unfolding remove_points
  lookup-remove_points kp p zero i rank d u = refl
  lookup-remove_points kp p (suc left) i rank d u = ground (
    arith,
    lookup-remove_points kp p left (i + 1) rank (erase (point rank i) d)
        (erase-Keyed (point rank i) d u),
    lookup-erase p (point rank i) d u,
  )

  module _ (kp : ℕ → ℕ) (rank : ℕ) (r : Ring) where
    -- `add_node` keeps the sorted points those of the map.
    pub add_node-IsRing : IsRing r → IsRing (add_node point kp rank r)
    unfolding add_node
    add_node-IsRing h = record {
      keyed = add_points-Keyed kp r.vn 0 rank r.points h.keyed;
      in_order = refl;
    }

    -- A rank whose points are free joins and leaves again: the sorted points are again those of the
    -- map, and each point has the rank it had.
    pub remove_node-add_node :
        IsRing r
        → ((p : ℕ) → owns r.vn 0 rank p ≡ true → lookup p r.points ≡ none)
        → let back = remove_node point kp rank (add_node point kp rank r) in
          IsRing back × ((p : ℕ) → lookup p back.points ≡ lookup p r.points)
    unfolding add_node remove_node
    remove_node-add_node h free =
        let more = add_points-Keyed kp r.vn 0 rank r.points h.keyed in
        (
          record {
            keyed =
                remove_points-Keyed kp r.vn 0 rank (add_points point kp r.vn 0 rank r.points) more;
            in_order = refl;
          },
          λ p. ground (
            arith,
            lookup-add_points kp p r.vn 0 rank r.points,
            lookup-remove_points kp p r.vn 0 rank (add_points point kp r.vn 0 rank r.points) more,
            free p,
          ),
        )
