-- ===== src/Cache/Tests.antt =====
-- Tests of the cache of tempo/p2p_cache.py on small stores, and the theorems at concrete inputs.
use working_tempo.Base.{◌+◌, ◌≤◌, ◌≡◌, ◌≢◌, ◌⊎◌, refl, max, none, some, [], ◌∷◌, arith, length, All}
use working_tempo.Base.Dict.{Dict, lookup, insert, Keyed, lookup-insert_self, lookup-insert_ne}
use working_tempo.Cache.Tier
use working_tempo.Cache.Tier.{
  Bytes, Key, Entry, FileOps, TierStore, dram, nvme, fresh_entry, evict_one, evict_dram_if_needed,
  oldest, oldest_from,
}
use working_tempo.Cache.Tier.Lru.{oldest_lem}
use working_tempo.Cache.Tier.Budget.{IsAccounted, resident, evict_dram_lem}
use working_tempo.Cache.Tier.Accounts.{put-IsAccounted, put-within, get-IsAccounted}
use working_tempo.Cache.Tier.Reads.{view, IsExclusive, IsReliable, Keeps, view-put, view-get}

-- A file system that keeps each file.
abbrev disk : FileOps (Dict Bytes)
disk = record { write = insert; read = lookup }

disk-IsReliable : IsReliable disk
disk-IsReliable = record {
  read-write_self = λ k c d. lookup-insert_self k c d;
  read-write_ne = λ j k c d ne. lookup-insert_ne j k c d ne;
}

abbrev cold : Entry
cold = record (fresh_entry 5 (9 ∷ []) 0) { tier = nvme }

abbrev store : TierStore (Dict Bytes)
store = record {
  dram_limit = 4;
  nvme_limit = 4;
  dram = (1, fresh_entry 1 (7 ∷ 7 ∷ []) 1) ∷ (2, fresh_entry 2 (8 ∷ []) 2) ∷ [];
  dram_bytes = 3;
  nvme_index = (5, cold) ∷ [];
  nvme_bytes = 1;
  files = (5, 9 ∷ []) ∷ [];
  hits_dram = 0;
  hits_nvme = 0;
  misses = 0;
  evictions = 0;
}

abbrev full : TierStore (Dict Bytes)
full = record store { nvme_limit = 1 }

abbrev fresh : Bytes
fresh = 1 ∷ 1 ∷ 1 ∷ []

store-IsAccounted : IsAccounted store
store-IsAccounted = ground arith

store-Keyed : Keyed store.dram
store-Keyed = ground arith

store-nvme-Keyed : Keyed store.nvme_index
store-nvme-Keyed = ground arith

store-IsExclusive : IsExclusive store
store-IsExclusive k = ground arith

oldest_lem_run :
    (lookup 1 store.dram ≡ some (fresh_entry 1 (7 ∷ 7 ∷ []) 1))
    × All (λ p. 1 ≤ p.1.last_access) store.dram
unfolding oldest oldest_from
oldest_lem_run = oldest_lem store.dram store-Keyed refl

put-IsAccounted_run : IsAccounted (Tier.put disk 3 fresh 9 store)
put-IsAccounted_run = put-IsAccounted disk 3 fresh 9 store store-IsAccounted

put-within_example :
    let t = Tier.put disk 3 fresh 9 store in
    (t.dram_limit ≡ 4)
    × ((t.dram_bytes ≤ 4) ⊎ (t.dram ≡ (3, fresh_entry 3 fresh 9) ∷ []))
    × (resident t.dram ≤ max 4 3)
put-within_example = put-within disk 3 fresh 9 store store-IsAccounted

get-IsAccounted_run : IsAccounted (Tier.get disk 5 9 store).0
get-IsAccounted_run = get-IsAccounted disk 5 9 store store-IsAccounted

evict_dram_lem_run :
    let t = evict_dram_if_needed disk 3 store in
    ((t.dram_bytes + 3 ≤ 4) ⊎ (t.dram ≡ []))
    × (t.evictions + length t.dram ≡ 2)
    × (t.dram_limit ≡ 4)
    × (t.nvme_limit ≡ 4)
    × IsAccounted t
evict_dram_lem_run = evict_dram_lem disk 3 store store-IsAccounted

view-put_example :
    (view disk (Tier.put disk 3 fresh 9 store) 3 ≡ some fresh)
    × ((j : Key)
        → j ≢ 3
        → (view disk (Tier.put disk 3 fresh 9 store) j ≡ view disk store j)
          ⊎ (view disk (Tier.put disk 3 fresh 9 store) j ≡ none))
view-put_example = view-put disk disk-IsReliable 3 fresh 9 store store-Keyed store-IsExclusive

view-get_example :
    let t = (Tier.get disk 5 9 store).0 in
    (view disk t 5 ≡ view disk store 5) × IsExclusive t × Keeps disk disk-IsReliable store t
view-get_example =
    view-get disk disk-IsReliable 5 9 store store-Keyed store-nvme-Keyed store-IsExclusive
