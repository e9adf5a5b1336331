-- ===== src/Cache/Tier.antt =====
-- `_CacheEntry` and `_LocalTierStore` of tempo/p2p_cache.py: DRAM in front of NVMe, each with a byte
-- budget. A key is a text there and is only compared and hashed, so a number stands for it; the
-- time of the clock at each call is an argument, in ticks. The files of the NVMe tier are a
-- parameter: what a write and a read do, errors included.
pub mod Budget
pub mod Accounts
pub mod Reads
pub mod Lru
use working_tempo.Base.{
  ℕ, zero, suc, ◌+◌, ◌-◌, Bool, true, false, Option, none, some, List, [], ◌∷◌, if◌then◌else◌, ltb,
  leb, length,
}
use working_tempo.Base.Dict.{Dict, lookup, insert, erase}

abbrev pub Key : Type 0
Key = ℕ

abbrev pub Bytes : Type 0
Bytes = List ℕ

pub data Place : Type 0 where
  dram nvme : Place

pub record Entry : Type 0 where
  pub key : Key
  pub content : Bytes
  pub size_bytes : ℕ
  pub tier : Place
  pub inserted_at : ℕ
  pub last_access : ℕ
  pub hit_count : ℕ

-- The file system under `nvme_root`, by key: `_nvme_path` names one file for each key. A write that
-- raises OSError is logged and leaves what it leaves; a read that raises gives `none`.
pub record FileOps (D : Type 0) : Type 0 where
  pub write : Key → Bytes → D → D
  pub read : Key → D → Option Bytes

pub record TierStore (D : Type 0) : Type 0 where
  pub dram_limit : ℕ
  pub nvme_limit : ℕ
  pub dram : Dict Entry
  pub dram_bytes : ℕ
  pub nvme_index : Dict Entry
  pub nvme_bytes : ℕ
  pub files : D
  pub hits_dram : ℕ
  pub hits_nvme : ℕ
  pub misses : ℕ
  pub evictions : ℕ

-- `_CacheEntry(key=…, data=…, size_bytes=len(data), tier="dram")`
abbrev pub fresh_entry : Key → Bytes → ℕ → Entry
fresh_entry key content now = record {
  key = key;
  content = content;
  size_bytes = length content;
  tier = dram;
  inserted_at = now;
  last_access = now;
  hit_count = 0;
}

-- `min(self._dram, key=…last_access)`: the first of the least recent entries.
unfoldable pub oldest_from : Key → Entry → Dict Entry → Key × Entry
oldest_from k e [] = (k, e)
oldest_from k e ((j, f) ∷ d) = elim (ltb f.last_access e.last_access) [
  | true ↦ oldest_from j f d
  | false ↦ oldest_from k e d
]

unfoldable pub oldest : Dict Entry → Option (Key × Entry)
unfolding oldest_from
oldest [] = none
oldest ((k, e) ∷ d) = some (oldest_from k e d)

-- A hit in DRAM: the entry is stamped and counted.
unfoldable pub hit : {D : Type 0} → Key → Entry → ℕ → TierStore D → TierStore D
hit key e now s = record s {
  dram = insert key (record e { last_access = now; hit_count = e.hit_count + 1 }) s.dram;
  hits_dram = s.hits_dram + 1;
}

module _ {D : Type 0} (io : FileOps D) where
  -- The end of the loop's body: the victim goes to NVMe if there is room, and else it is lost.
  unfoldable pub spill : Key → Entry → TierStore D → TierStore D
  spill k victim s =
      if leb (s.nvme_bytes + victim.size_bytes) s.nvme_limit
      then record s {
        files = io.write k victim.content s.files;
        nvme_index = insert k (record victim { tier = nvme }) s.nvme_index;
        nvme_bytes = s.nvme_bytes + victim.size_bytes;
      }
      else s

  -- One round of the loop of `_evict_dram_if_needed`, on the victim.
  unfoldable pub evict_one : Key → Entry → TierStore D → TierStore D
  unfolding spill
  evict_one k victim s = spill k victim (record s {
    dram = erase k s.dram;
    dram_bytes = s.dram_bytes - victim.size_bytes;
    evictions = s.evictions + 1;
  })

  -- `while self._dram_bytes + needed > self._dram_limit and self._dram`, on fuel.
  unfoldable pub evict_loop : ℕ → ℕ → TierStore D → TierStore D
  unfolding oldest evict_one
  evict_loop zero needed s = s
  evict_loop (suc fuel) needed s =
      if ltb s.dram_limit (s.dram_bytes + needed)
      then elim (oldest s.dram) [
        | none ↦ s
        | some (k, victim) ↦ evict_loop fuel needed (evict_one k victim s)
      ]
      else s

  -- Each round takes one entry out of DRAM, so their number is enough fuel.
  unfoldable pub evict_dram_if_needed : ℕ → TierStore D → TierStore D
  unfolding evict_loop
  evict_dram_if_needed needed s = evict_loop (length s.dram) needed s

  -- `put`, which always answers "dram".
  unfoldable pub put : Key → Bytes → ℕ → TierStore D → TierStore D
  unfolding evict_dram_if_needed
  put key content now s =
      let s' = evict_dram_if_needed (length content) s in
      record s' {
        dram = insert key (fresh_entry key content now) s'.dram;
        dram_bytes = s'.dram_bytes + length content;
      }

  -- A hit in NVMe whose file could be read: the entry moves to DRAM.
  unfoldable pub promote : Key → Entry → Bytes → ℕ → TierStore D → TierStore D
  unfolding evict_dram_if_needed
  promote key e content now s =
      let s' = evict_dram_if_needed (length content) s in
      record s' {
        dram =
            insert key (record (fresh_entry key content now) { hit_count = e.hit_count + 1 })
              s'.dram;
        dram_bytes = s'.dram_bytes + length content;
        nvme_index = erase key s'.nvme_index;
        nvme_bytes = s'.nvme_bytes - e.size_bytes;
        hits_nvme = s'.hits_nvme + 1;
      }

  -- The end of `get`: `self._misses += 1` and `None`.
  abbrev miss : TierStore D → TierStore D × Option Bytes
  miss s = (record s { misses = s.misses + 1 }, none)

  unfoldable pub get_nvme : Key → ℕ → TierStore D → TierStore D × Option Bytes
  unfolding promote
  get_nvme key now s = elim (lookup key s.nvme_index) [
    | none ↦ miss s
    | some e ↦ elim (io.read key s.files) [
      | none ↦ miss s
      | some content ↦ (promote key e content now s, some content)
    ]
  ]

  unfoldable pub get : Key → ℕ → TierStore D → TierStore D × Option Bytes
  unfolding hit get_nvme
  get key now s = elim (lookup key s.dram) [
    | some e ↦ (hit key e now s, some e.content)
    | none ↦ get_nvme key now s
  ]
