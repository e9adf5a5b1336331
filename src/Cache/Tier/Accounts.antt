-- ===== src/Cache/Tier/Accounts.antt =====
-- Every operation of `_LocalTierStore` (tempo/p2p_cache.py) keeps the byte accounts, and where the
-- DRAM account drifts above what DRAM holds.
use working_tempo.Base.{
  ℕ, ◌+◌, ◌≤◌, ◌≡◌, ◌≢◌, ◌⊎◌, inl, inr, refl, none, some, [], ◌∷◌, arith, length, max, Option-cases,
  none≢some, sym, ap, ◌∙◌,
}
use working_tempo.Base.Dict.{
  Dict, lookup, insert, Keyed, insert-Keyed, erase-Keyed, All-insert, All-erase, All-lookup,
  lookup-insert_ne, lookup-erase_ne,
}
use working_tempo.Cache.Tier.{
  Key, Bytes, Entry, FileOps, TierStore, nvme, oldest, evict_one, evict_dram_if_needed, put, hit,
  promote, get_nvme, get, fresh_entry,
}
use working_tempo.Cache.Tier.Lru.{oldest-lookup}
use working_tempo.Cache.Tier.Budget.{
  IsAccounted, resident, evict-From, evict-fits, evict_loop-keeps, resident-insert, resident-erase,
}

-- Overwriting an entry exchanges the bytes of the old data for those of the new.
resident-insert_present :
    (k : Key) (e old : Entry) (d : Dict Entry)
    → lookup k d ≡ some old
    → resident (insert k e d) + length old.content ≡ resident d + length e.content
resident-insert_present k e old [] h = cc
resident-insert_present k e old (p ∷ d) h = ground (arith, resident-insert_present k e old d)

module _ {D : Type 0} (io : FileOps D) where
  -- `put` keeps the accounts, the NVMe budget included.
  pub put-IsAccounted :
      (k : Key) (c : Bytes) (now : ℕ) (s : TierStore D)
      → IsAccounted s
      → IsAccounted (put io k c now s)
  unfolding put
  put-IsAccounted k c now s a =
      let t = evict_dram_if_needed io (length c) s in
      let e = fresh_entry k c now in
      let b : IsAccounted t = (evict-From io (length c) s a).0 in
      record {
        dram_keyed = insert-Keyed k e t.dram b.dram_keyed;
        nvme_keyed = b.nvme_keyed;
        dram_sized = All-insert _ k e t.dram refl b.dram_sized;
        nvme_sized = b.nvme_sized;
        dram_counted = omega (arith, resident-insert k e t.dram, b.dram_counted);
        nvme_counted = b.nvme_counted;
        nvme_within = b.nvme_within;
      }

  -- After `put` the account is within the DRAM budget, or DRAM holds the new entry alone; and what
  -- DRAM really holds is never more than the budget, unless that one entry is larger.
  pub put-within :
      (k : Key) (c : Bytes) (now : ℕ) (s : TierStore D)
      → IsAccounted s
      → let t = put io k c now s in
        (t.dram_limit ≡ s.dram_limit)
        × ((t.dram_bytes ≤ s.dram_limit) ⊎ (t.dram ≡ (k, fresh_entry k c now) ∷ []))
        × (resident t.dram ≤ max s.dram_limit (length c))
  unfolding put
  put-within k c now s a =
      let t = evict_dram_if_needed io (length c) s in
      let (b, e) = evict-From io (length c) s a in
      let limit : t.dram_limit ≡ s.dram_limit = e.same_dram_limit in
      let more = resident-insert k (fresh_entry k c now) t.dram in
      elim (evict-fits io (length c) s a) [
        | inl fits ↦ (limit, inl (omega arith), omega (arith, more, b.dram_counted))
        | inr empty ↦ (limit, inr (rw empty), rw empty (omega arith))
      ]

  -- A key on NVMe stays there while it is not in DRAM.
  abbrev OnNvme : Key → TierStore D → TierStore D → Type 0
  OnNvme k s t =
      Keyed t.dram × (lookup k t.dram ≡ none) × (lookup k t.nvme_index ≡ lookup k s.nvme_index)

  evict_one-OnNvme :
      (k : Key) (s : TierStore D) (j : Key) (v : Entry) (t : TierStore D)
      → oldest t.dram ≡ some (j, v)
      → OnNvme k s t
      → OnNvme k s (evict_one io j v t)
  unfolding evict_one
  evict_one-OnNvme k s j v t found (u, absent, same) =
      let at : lookup j t.dram ≡ some v = oldest-lookup t.dram u found in
      let ne : k ≢ j = λ e. none≢some (sym absent ∙ ap (λ i. lookup i t.dram) e ∙ at) in
      (
        ground (arith, erase-Keyed j t.dram u),
        ground (arith, absent, lookup-erase_ne k j t.dram ne),
        ground (arith, same, lookup-insert_ne k j (record v { tier = nvme }) t.nvme_index ne),
      )

  evict-OnNvme :
      (needed : ℕ) (k : Key) (s : TierStore D)
      → Keyed s.dram
      → lookup k s.dram ≡ none
      → OnNvme k s (evict_dram_if_needed io needed s)
  unfolding evict_dram_if_needed
  evict-OnNvme needed k s u h =
      evict_loop-keeps io (OnNvme k s) needed (evict_one-OnNvme k s) (length s.dram) s (u, h, refl)

  miss-IsAccounted :
      (s : TierStore D) → IsAccounted s → IsAccounted (record s { misses = s.misses + 1 })
  miss-IsAccounted s a = ground (arith, a)

  hit-IsAccounted :
      (k : Key) (e : Entry) (now : ℕ) (s : TierStore D)
      → lookup k s.dram ≡ some e
      → IsAccounted s
      → IsAccounted (hit k e now s)
  unfolding hit
  hit-IsAccounted k e now s h a =
      let f : Entry = record e { last_access = now; hit_count = e.hit_count + 1 } in
      record {
        dram_keyed = insert-Keyed k f s.dram a.dram_keyed;
        nvme_keyed = a.nvme_keyed;
        dram_sized = All-insert _ k f s.dram (All-lookup _ k e s.dram a.dram_sized h) a.dram_sized;
        nvme_sized = a.nvme_sized;
        dram_counted = omega (arith, resident-insert_present k f e s.dram h, a.dram_counted);
        nvme_counted = a.nvme_counted;
        nvme_within = a.nvme_within;
      }

  promote-IsAccounted :
      (k : Key) (e : Entry) (c : Bytes) (now : ℕ) (s : TierStore D)
      → lookup k s.dram ≡ none
      → lookup k s.nvme_index ≡ some e
      → IsAccounted s
      → IsAccounted (promote io k e c now s)
  unfolding promote
  promote-IsAccounted k e c now s absent found a =
      let t = evict_dram_if_needed io (length c) s in
      let f : Entry = record (fresh_entry k c now) { hit_count = e.hit_count + 1 } in
      let b : IsAccounted t = (evict-From io (length c) s a).0 in
      let there : lookup k t.nvme_index ≡ some e =
        (evict-OnNvme (length c) k s a.dram_keyed absent).2 ∙ found in
      let sized : e.size_bytes ≡ length e.content =
        All-lookup _ k e s.nvme_index a.nvme_sized found in
      record {
        dram_keyed = insert-Keyed k f t.dram b.dram_keyed;
        nvme_keyed = erase-Keyed k t.nvme_index b.nvme_keyed;
        dram_sized = All-insert _ k f t.dram refl b.dram_sized;
        nvme_sized = All-erase _ k t.nvme_index b.nvme_sized;
        dram_counted = omega (arith, resident-insert k f t.dram, b.dram_counted);
        nvme_counted = omega (arith, resident-erase k e t.nvme_index there, b.nvme_counted);
        nvme_within = omega (arith, b.nvme_within);
      }

  -- `get` keeps the accounts on every branch: a hit in DRAM, a promotion from NVMe, a file that
  -- cannot be read, and a miss.
  pub get-IsAccounted :
      (k : Key) (now : ℕ) (s : TierStore D) → IsAccounted s → IsAccounted (get io k now s).0
  unfolding get
  get-IsAccounted k now s a = elim (Option-cases (lookup k s.dram)) [
    | inr (e, found) ↦ rw (found, get) (hit-IsAccounted k e now s found a)
    | inl absent ↦ elim (Option-cases (lookup k s.nvme_index)) [
      | inl gone ↦ rw (absent, get, gone, get_nvme) (miss-IsAccounted s a)
      | inr (e, found) ↦ elim (Option-cases (io.read k s.files)) [
        | inl unread ↦ rw (absent, get, found, get_nvme, unread) (miss-IsAccounted s a)
        | inr (c, r) ↦
            rw (absent, get, found, get_nvme, r) (promote-IsAccounted k e c now s absent found a)
      ]
    ]
  ]
