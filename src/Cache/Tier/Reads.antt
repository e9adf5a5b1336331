-- ===== src/Cache/Tier/Reads.antt =====
-- What `_LocalTierStore.get` answers (tempo/p2p_cache.py), and what the evictions do to it.
use working_tempo.Base.{
  ℕ, ◌+◌, ◌≡◌, ◌≢◌, ◌⊎◌, inl, inr, refl, Option, none, some, arith, length, Bool-cases,
  Option-cases, ◌==◌,
}
use working_tempo.Base.Dict.{
  lookup, Keyed, erase-Keyed, lookup-insert_self, lookup-insert_ne, lookup-erase_self,
  lookup-erase_ne,
}
use working_tempo.Cache.Tier.{
  Key, Bytes, Entry, FileOps, TierStore, oldest, evict_one, evict_dram_if_needed, put, nvme, hit,
  promote, get_nvme, get, fresh_entry,
}
use working_tempo.Cache.Tier.Lru.{oldest-lookup}
use working_tempo.Cache.Tier.Budget.{evict_loop-keeps, evict_one-dram, evict-nvme-Keyed}

-- What the two tiers hold under a key, with no account of hits.
pub view : {D : Type 0} → FileOps D → TierStore D → Key → Option Bytes
view io s k = elim (lookup k s.dram) [
  | some e ↦ some e.content
  | none ↦ elim (lookup k s.nvme_index) [ some _ ↦ io.read k s.files | none ↦ none ]
]

-- No key is in both tiers.
abbrev pub IsExclusive : {D : Type 0} → TierStore D → Type 0
IsExclusive s = (k : Key) → (lookup k s.dram ≡ none) ⊎ (lookup k s.nvme_index ≡ none)

-- A file system whose writes succeed: a file reads as it was last written.
pub record IsReliable {D : Type 0} (io : FileOps D) : Type 0 where
  pub read-write_self : (k : Key) (c : Bytes) (d : D) → io.read k (io.write k c d) ≡ some c
  pub read-write_ne :
      (j k : Key) (c : Bytes) (d : D) → j ≢ k → io.read j (io.write k c d) ≡ io.read j d

module _ {D : Type 0} (io : FileOps D) where
  -- `get` answers what the tiers hold under the key, on every branch.
  pub get-view : (k : Key) (now : ℕ) (s : TierStore D) → (get io k now s).1 ≡ view io s k
  unfolding get get_nvme view
  get-view k now s = ground arith

  -- A key reads as it was last put.
  pub view-put_self :
      (k : Key) (c : Bytes) (now : ℕ) (s : TierStore D) → view io (put io k c now s) k ≡ some c
  unfolding put view
  view-put_self k c now s = ground (
    arith,
    lookup-insert_self k (fresh_entry k c now) (evict_dram_if_needed io (length c) s).dram,
  )

  module _ (ok : IsReliable io) where
    -- The evicted entry goes to NVMe, where it reads the same, or is lost; others stay.
    evict_one-view :
        (j k : Key) (v : Entry) (s : TierStore D)
        → Keyed s.dram
        → lookup k s.dram ≡ some v
        → lookup k s.nvme_index ≡ none
        → (view io (evict_one io k v s) j ≡ view io s j) ⊎ (view io (evict_one io k v s) j ≡ none)
    unfolding evict_one view
    evict_one-view j k v s u h x = elim (Bool-cases (j == k)) [
      | inl same ↦
          let e : j ≡ k = ground (arith, same) in
          ground (
            arith,
            e,
            lookup-erase_self k s.dram u,
            lookup-insert_self k (record v { tier = nvme }) s.nvme_index,
            ok.read-write_self k v.content s.files,
          )
      | inr other ↦
          let ne : j ≢ k = ground (arith, other) in
          inl (
            ground (
              arith,
              lookup-erase_ne j k s.dram ne,
              lookup-insert_ne j k (record v { tier = nvme }) s.nvme_index ne,
              ok.read-write_ne j k v.content s.files ne,
            ))
    ]

    evict_one-IsExclusive :
        (k : Key) (v : Entry) (s : TierStore D)
        → Keyed s.dram
        → IsExclusive s
        → IsExclusive (evict_one io k v s)
    unfolding evict_one
    evict_one-IsExclusive k v s u x j = elim (Bool-cases (j == k)) [
      | inl same ↦
          let e : j ≡ k = ground (arith, same) in
          inl (ground (arith, e, lookup-erase_self k s.dram u))
      | inr other ↦
          let ne : j ≢ k = ground (arith, other) in
          ground (
            arith,
            x j,
            lookup-erase_ne j k s.dram ne,
            lookup-insert_ne j k (record v { tier = nvme }) s.nvme_index ne,
          )
    ]

    -- Each key reads as before or reads nothing.
    abbrev pub Keeps : TierStore D → TierStore D → Type 0
    Keeps s t = (j : Key) → (view io t j ≡ view io s j) ⊎ (view io t j ≡ none)

    abbrev pub IsSound : TierStore D → TierStore D → Type 0
    IsSound s t = Keyed t.dram × IsExclusive t × Keeps s t

    evict_one-IsSound :
        (s : TierStore D) (k : Key) (v : Entry) (t : TierStore D)
        → oldest t.dram ≡ some (k, v)
        → IsSound s t
        → IsSound s (evict_one io k v t)
    evict_one-IsSound s k v t found (u, x, r) =
        let at : lookup k t.dram ≡ some v = oldest-lookup t.dram u found in
        let gone : lookup k t.nvme_index ≡ none = ground (arith, x k, at) in
        (
          rw (evict_one-dram io k v t) (erase-Keyed k t.dram u),
          evict_one-IsExclusive k v t u x,
          λ j. ground (arith, r j, evict_one-view j k v t u at gone),
        )

    -- An eviction of any size loses entries and changes none.
    pub evict-IsSound :
        (needed : ℕ) (s : TierStore D)
        → Keyed s.dram
        → IsExclusive s
        → IsSound s (evict_dram_if_needed io needed s)
    unfolding evict_dram_if_needed
    evict-IsSound needed s u x =
        evict_loop-keeps io (IsSound s) needed (evict_one-IsSound s) (length s.dram) s
          (u, x, λ j. inl refl)

    -- In a store that has each key at most once in a tier and in at most one tier, over files that read
    -- as they were last written: after `put` the key reads as it was put, and every other key reads as
    -- before or nothing.
    pub view-put :
        (k : Key) (c : Bytes) (now : ℕ) (s : TierStore D)
        → Keyed s.dram
        → IsExclusive s
        → (view io (put io k c now s) k ≡ some c)
          × ((j : Key)
              → j ≢ k
              → (view io (put io k c now s) j ≡ view io s j)
                ⊎ (view io (put io k c now s) j ≡ none))
    unfolding put view
    view-put k c now s u x =
        let t = evict_dram_if_needed io (length c) s in
        let (_, _, kept) = evict-IsSound (length c) s u x in
        (
          ground (arith, lookup-insert_self k (fresh_entry k c now) t.dram),
          λ j ne. ground (arith, kept j, lookup-insert_ne j k (fresh_entry k c now) t.dram ne),
        )

    view-hit :
        (k : Key) (now : ℕ) (s : TierStore D) (e : Entry)
        → lookup k s.dram ≡ some e
        → IsExclusive s
        → let t = hit k e now s in (view io t k ≡ view io s k) × IsExclusive t × Keeps s t
    unfolding view hit
    view-hit k now s e found x =
        let f : Entry = record e { last_access = now; hit_count = e.hit_count + 1 } in
        (
          ground (arith, found, lookup-insert_self k f s.dram),
          λ j. elim (Bool-cases (j == k)) [
            | inl same ↦ let q : j ≡ k = ground (arith, same) in inr (ground (arith, q, found, x k))
            | inr other ↦
                let ne : j ≢ k = ground (arith, other) in
                ground (arith, x j, lookup-insert_ne j k f s.dram ne)
          ],
          λ j. elim (Bool-cases (j == k)) [
            | inl same ↦
                let q : j ≡ k = ground (arith, same) in
                inl (ground (arith, q, found, lookup-insert_self k f s.dram))
            | inr other ↦
                let ne : j ≢ k = ground (arith, other) in
                inl (ground (arith, lookup-insert_ne j k f s.dram ne))
          ],
        )

    view-miss :
        (k : Key) (s : TierStore D)
        → IsExclusive s
        → let t = record s { misses = s.misses + 1 } in
          (view io t k ≡ view io s k) × IsExclusive t × Keeps s t
    unfolding view
    view-miss k s x = (refl, x, λ j. inl refl)

    view-promote :
        (k : Key) (e : Entry) (c : Bytes) (now : ℕ) (s : TierStore D)
        → Keyed s.dram
        → Keyed s.nvme_index
        → IsExclusive s
        → lookup k s.dram ≡ none
        → lookup k s.nvme_index ≡ some e
        → io.read k s.files ≡ some c
        → let t = promote io k e c now s in (view io t k ≡ view io s k) × IsExclusive t × Keeps s t
    unfolding view promote
    view-promote k e c now s u w x absent found r =
        let t = evict_dram_if_needed io (length c) s in
        let f : Entry = record (fresh_entry k c now) { hit_count = e.hit_count + 1 } in
        let (v, y, kept) = evict-IsSound (length c) s u x in
        let nk : Keyed t.nvme_index = evict-nvme-Keyed io (length c) s w in
        (
          ground (arith, absent, found, r, lookup-insert_self k f t.dram),
          λ j. elim (Bool-cases (j == k)) [
            | inl same ↦
                let q : j ≡ k = ground (arith, same) in
                inr (ground (arith, q, lookup-erase_self k t.nvme_index nk))
            | inr other ↦
                let ne : j ≢ k = ground (arith, other) in
                ground (
                  arith,
                  y j,
                  lookup-insert_ne j k f t.dram ne,
                  lookup-erase_ne j k t.nvme_index ne,
                )
          ],
          λ j. elim (Bool-cases (j == k)) [
            | inl same ↦
                let q : j ≡ k = ground (arith, same) in
                inl (ground (arith, q, absent, found, r, lookup-insert_self k f t.dram))
            | inr other ↦
                let ne : j ≢ k = ground (arith, other) in
                ground (
                  arith,
                  kept j,
                  lookup-insert_ne j k f t.dram ne,
                  lookup-erase_ne j k t.nvme_index ne,
                )
          ],
        )

    -- In a store that has each key at most once in a tier and in at most one tier, over files that read
    -- as they were last written: `get` moves entries between the tiers, the key reads as before, and so
    -- does every other key unless an eviction lost it, and no key comes to be in both tiers.
    pub view-get :
        (k : Key) (now : ℕ) (s : TierStore D)
        → Keyed s.dram
        → Keyed s.nvme_index
        → IsExclusive s
        → let t = (get io k now s).0 in (view io t k ≡ view io s k) × IsExclusive t × Keeps s t
    unfolding get
    view-get k now s u w x = elim (Option-cases (lookup k s.dram)) [
      | inr (e, found) ↦ rw (found, get) (view-hit k now s e found x)
      | inl absent ↦ elim (Option-cases (lookup k s.nvme_index)) [
        | inl gone ↦ rw (absent, get, gone, get_nvme) (view-miss k s x)
        | inr (e, found) ↦ elim (Option-cases (io.read k s.files)) [
          | inl unread ↦ rw (absent, get, found, get_nvme, unread) (view-miss k s x)
          | inr (c, r) ↦
              rw (absent, get, found, get_nvme, r) (view-promote k e c now s u w x absent found r)
        ]
      ]
    ]
