-- ===== src/Cache/Ring.antt =====
-- `_ConsistentHashRing` of tempo/p2p_cache.py. The two uses of MD5 are parameters: `point r i` is the
-- hash of the text "r-i", and `key_point k` that of the key.
pub mod Bisect
pub mod Walk
pub mod Members
mod Tests
use working_tempo.Base.{
  ℕ, zero, suc, ◌+◌, ◌/◌, ◌%◌, max, Bool, true, false, Option, none, some, List, [], ◌∷◌, ◌++◌, map,
  if◌then◌else◌, ltb, leb, length, get_elem?, get_or, elem,
}
use working_tempo.Base.Dict.{Dict, lookup, insert, erase}
use working_tempo.Base.Sort.{sorted}

pub record Ring : Type 0 where
  pub vn : ℕ
  pub points : Dict ℕ
  pub sorted_keys : List ℕ

abbrev pub keys : Dict ℕ → List ℕ
keys = map (λ e. e.0)

-- `_ConsistentHashRing(virtual_nodes)`
abbrev pub empty_ring : ℕ → Ring
empty_ring vn = record { vn = vn; points = []; sorted_keys = [] }

-- The loop of `_bisect`, `while lo < hi`, on fuel; `keys[mid]` is always in range.
unfoldable pub bisect_loop : ℕ → ℕ → List ℕ → ℕ → ℕ → ℕ
bisect_loop zero h ks lo hi = lo
bisect_loop (suc fuel) h ks lo hi =
    let mid = (lo + hi) / 2 in
    elim (ltb lo hi) [
      | false ↦ lo
      | true ↦ elim (ltb (get_or ks mid 0) h) [
        | true ↦ bisect_loop fuel h ks (mid + 1) hi
        | false ↦ bisect_loop fuel h ks lo mid
      ]
    ]

-- The interval shrinks in each round, so its length is enough fuel.
unfoldable pub bisect : Ring → ℕ → ℕ
unfolding bisect_loop
bisect r h =
    bisect_loop (length r.sorted_keys) h r.sorted_keys 0 (length r.sorted_keys)
    % max 1 (length r.sorted_keys)

-- `if node not in seen`: the set `seen` holds what `owners` lists.
unfoldable pub add_owner : ℕ → List ℕ → List ℕ
add_owner node owners = if elem node owners then owners else owners ++ node ∷ []

-- The loop of `get_nodes`, with the rounds left: `none` is an IndexError or a KeyError.
unfoldable pub walk : ℕ → ℕ → ℕ → Ring → ℕ → List ℕ → Option (List ℕ)
unfolding add_owner
walk zero i idx r n owners = some owners
walk (suc left) i idx r n owners =
    elim (get_elem? r.sorted_keys ((idx + i) % length r.sorted_keys)) [
      | none ↦ none
      | some p ↦ elim (lookup p r.points) [
        | none ↦ none
        | some node ↦
            let owners' = add_owner node owners in
            elim (leb n (length owners')) [
              | true ↦ some owners'
              | false ↦ walk left (i + 1) idx r n owners'
            ]
      ]
    ]

module _ (point : ℕ → ℕ → ℕ) (key_point : ℕ → ℕ) where
  -- The loops of `add_node` and `remove_node`, from the virtual node `i` on.
  unfoldable pub add_points : ℕ → ℕ → ℕ → Dict ℕ → Dict ℕ
  add_points zero i rank d = d
  add_points (suc left) i rank d = add_points left (i + 1) rank (insert (point rank i) rank d)

  unfoldable pub remove_points : ℕ → ℕ → ℕ → Dict ℕ → Dict ℕ
  remove_points zero i rank d = d
  remove_points (suc left) i rank d = remove_points left (i + 1) rank (erase (point rank i) d)

  unfoldable pub add_node : ℕ → Ring → Ring
  unfolding add_points
  add_node rank r =
      let d = add_points r.vn 0 rank r.points in
      record r { points = d; sorted_keys = sorted (keys d) }

  unfoldable pub remove_node : ℕ → Ring → Ring
  unfolding remove_points
  remove_node rank r =
      let d = remove_points r.vn 0 rank r.points in
      record r { points = d; sorted_keys = sorted (keys d) }

  unfoldable pub get_nodes : ℕ → ℕ → Ring → Option (List ℕ)
  unfolding bisect walk
  get_nodes key n r = elim r.sorted_keys [
    | [] ↦ some []
    | _ ∷ _ ↦ walk (length r.sorted_keys) 0 (bisect r (key_point key)) r n []
  ]
