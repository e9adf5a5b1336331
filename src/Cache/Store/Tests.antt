-- ===== src/Cache/Store/Tests.antt =====
-- The theorems on `P2PCacheStore` (tempo/p2p_cache.py) at a store of two ranks.
use working_tempo.Base.{
  ℕ, ◌+◌, ◌*◌, ◌≤◌, ◌≡◌, refl, true, false, Option, none, some, List, [], ◌∷◌, arith, length, elem,
  if◌then◌else◌,
}
use working_tempo.Base.Dict.{Dict, lookup, insert}
use working_tempo.Base.Sort.{sorted}
use working_tempo.Cache.Ring
use working_tempo.Cache.Ring.{
  empty_ring, add_node, add_points, get_nodes, bisect, bisect_loop, walk, add_owner,
}
use working_tempo.Cache.Ring.Members.{IsRing, add_node-IsRing}
use working_tempo.Cache.Tier.{Bytes, TierStore, fresh_entry}
use working_tempo.Cache.Tier.Budget.{IsAccounted}
use working_tempo.Cache.Store.{P2PStore, Env, owners_of, put, get}
use working_tempo.Cache.Store.Local.{put_lem, get_lem}
use working_tempo.Cache.Store.Peers.{get-put, put_alone}

-- No peer answers.
abbrev env : Env (Dict Bytes)
env = record {
  point = λ rank i. rank * 10 + i;
  key_point = λ k. k;
  io = record { write = insert; read = lookup };
  send = λ addr k c. false;
  fetch = λ addr k. none;
}

abbrev two : Ring.Ring
two = add_node env.point env.key_point 1 (add_node env.point env.key_point 2 (empty_ring 2))

two-IsRing : IsRing two
unfolding sorted
two-IsRing =
    add_node-IsRing env.point env.key_point 1 (add_node env.point env.key_point 2 (empty_ring 2)) (
      add_node-IsRing env.point env.key_point 2 (empty_ring 2)
        (record { keyed = tt; in_order = refl }))

abbrev tier : TierStore (Dict Bytes)
tier = record {
  dram_limit = 4;
  nvme_limit = 4;
  dram = (15, fresh_entry 15 (7 ∷ 7 ∷ []) 1) ∷ [];
  dram_bytes = 2;
  nvme_index = [];
  nvme_bytes = 0;
  files = [];
  hits_dram = 0;
  hits_nvme = 0;
  misses = 0;
  evictions = 0;
}

tier-IsAccounted : IsAccounted tier
tier-IsAccounted = ground arith

abbrev alone : P2PStore (Dict Bytes)
alone = record {
  rank = 1;
  replication = 2;
  simulation = false;
  local_store = tier;
  ring = two;
  peer_addrs = [];
  puts_local = 0;
  puts_remote = 0;
  gets_local = 0;
  gets_remote = 0;
  gets_miss = 0;
}

abbrev simulated : P2PStore (Dict Bytes)
simulated = record alone { simulation = true }

lookup-two : lookup 20 two.points ≡ some 2
unfolding add_node add_points
lookup-two = refl

put_lem_run :
    (t : P2PStore (Dict Bytes)) × (l : List ℕ) × (put env 12 (1 ∷ []) 9 alone ≡ some (t, l))
    × IsAccounted t.local_store
    × (length l ≤ 2)
put_lem_run = put_lem env 12 (1 ∷ []) 9 alone two-IsRing tier-IsAccounted

get_lem_run :
    (t : P2PStore (Dict Bytes)) × (o : Option Bytes) × (get env 15 9 alone ≡ some (t, o))
    × IsAccounted t.local_store
get_lem_run = get_lem env 15 9 alone two-IsRing tier-IsAccounted

owners-two : owners_of env 15 alone ≡ some (2 ∷ 1 ∷ [])
unfolding get_nodes bisect bisect_loop walk add_owner add_node add_points sorted
owners-two = refl

get-put_example :
    (t : P2PStore (Dict Bytes)) × (l : List ℕ) × (u : P2PStore (Dict Bytes)) × (put env 12
        (1 ∷ [])
        9
        simulated
      ≡ some (t, l))
    × (get env 12 11 t ≡ some (u, some (1 ∷ [])))
get-put_example =
    get-put env 12 (1 ∷ []) 9 11 simulated 20 2 refl two-IsRing lookup-two (omega arith)

alone_in_dram :
    (owners : List ℕ) × (t : P2PStore (Dict Bytes)) × (owners_of env 12 alone ≡ some owners)
    × (put env 12 (1 ∷ []) 9 alone ≡ some (t, if elem 1 owners then 1 ∷ [] else []))
    × (t.puts_remote ≡ 0)
alone_in_dram = put_alone env 12 (1 ∷ []) 9 alone two-IsRing refl refl
