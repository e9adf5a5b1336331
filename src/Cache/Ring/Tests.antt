-- ===== src/Cache/Ring/Tests.antt =====
-- Tests of the hash ring of tempo/p2p_cache.py, and the theorems at concrete rings.
use working_tempo.Base.{
  ℕ, ◌+◌, ◌*◌, ◌%◌, ◌≤◌, ◌<◌, ◌≡◌, refl, max, true, some, List, [], ◌∷◌, arith, length, elem, All,
  Distinct,
}
use working_tempo.Base.Dict.{lookup}
use working_tempo.Base.Sort.{IsSorted, sorted, sorted-IsSorted}
use working_tempo.Cache.Ring
use working_tempo.Cache.Ring.{
  empty_ring, add_node, remove_node, get_nodes, bisect, bisect_loop, walk, add_owner, add_points,
}
use working_tempo.Cache.Ring.Bisect.{count_below, bisect-count_below}
use working_tempo.Cache.Ring.Members.{IsRing, add_node-IsRing, remove_node-add_node}
use working_tempo.Cache.Ring.Walk.{get_nodes_lem}

-- Virtual node `i` of a rank is at ten times the rank, and `i`.
abbrev point : ℕ → ℕ → ℕ
point rank i = rank * 10 + i

abbrev key_point : ℕ → ℕ
key_point k = k

abbrev empty : Ring.Ring
empty = empty_ring 2

abbrev two : Ring.Ring
two = add_node point key_point 1 (add_node point key_point 2 empty)

empty-IsRing : IsRing empty
unfolding sorted
empty-IsRing = record { keyed = tt; in_order = refl }

two-IsRing : IsRing two
two-IsRing =
    add_node-IsRing point key_point 1 (add_node point key_point 2 empty)
      (add_node-IsRing point key_point 2 empty empty-IsRing)

two-IsSorted : IsSorted two.sorted_keys
unfolding add_node
two-IsSorted = sorted-IsSorted _

-- The walk goes round the end of the points.
get_nodes_round : get_nodes point key_point 21 2 two ≡ some (2 ∷ 1 ∷ [])
unfolding get_nodes bisect bisect_loop walk add_owner add_node add_points sorted
get_nodes_round = refl

-- None are asked for, and one is answered.
get_nodes_zero : get_nodes point key_point 15 0 two ≡ some (2 ∷ [])
unfolding get_nodes bisect bisect_loop walk add_owner add_node add_points sorted
get_nodes_zero = refl

get_nodes_lem_example :
    (out : List ℕ) × (get_nodes point key_point 15 2 two ≡ some out)
    × Distinct out
    × All (λ v. (p : ℕ) × (lookup p two.points ≡ some v)) out
    × (length out ≤ 2)
    × (0 < length two.sorted_keys → 0 < length out)
    × (length out < 2 → (p v : ℕ) → lookup p two.points ≡ some v → elem v out ≡ true)
get_nodes_lem_example = get_nodes_lem point key_point two two-IsRing 15 2

bisect-count_below_example :
    bisect two 15 ≡ count_below 15 two.sorted_keys % max 1 (length two.sorted_keys)
bisect-count_below_example = bisect-count_below two 15 two-IsSorted

remove_node-add_node_example :
    let back = remove_node point key_point 3 (add_node point key_point 3 two) in
    IsRing back × ((p : ℕ) → lookup p back.points ≡ lookup p two.points)
unfolding add_node add_points
remove_node-add_node_example =
    remove_node-add_node point key_point 3 two two-IsRing (λ p h. ground arith)
