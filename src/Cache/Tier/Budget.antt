-- ===== src/Cache/Tier/Budget.antt =====
-- The byte accounts of `_LocalTierStore` (tempo/p2p_cache.py), kept by every operation.
use working_tempo.Base.{
  ℕ, zero, suc, ◌+◌, ◌≤◌, ◌≡◌, ◌⊎◌, inl, inr, some, [], ◌∷◌, arith, length-eq-zero, leb, ltb,
  length, All, Bool-cases, Option-cases,
}
use working_tempo.Base.Dict.{
  Dict, lookup, insert, erase, Keyed, insert-Keyed, erase-Keyed, All-insert, All-erase, All-lookup,
  length-erase,
}
use working_tempo.Cache.Tier.{
  Key, Entry, FileOps, TierStore, nvme, oldest, spill, evict_one, evict_loop, evict_dram_if_needed,
}
use working_tempo.Cache.Tier.Lru.{oldest-lookup, oldest-none}

-- The bytes that a tier really holds.
abbrev pub resident : Dict Entry → ℕ
resident [] = 0
resident ((_, e) ∷ d) = length e.content + resident d

-- `size_bytes` is the length of the data.
abbrev pub Sized : Dict Entry → Type 0
Sized = All (λ p. p.1.size_bytes ≡ length p.1.content)

pub resident-insert :
    (k : Key) (e : Entry) (d : Dict Entry) → resident (insert k e d) ≤ resident d + length e.content
resident-insert k e [] = omega arith
resident-insert k e (p ∷ d) = ground (arith, resident-insert k e d)

pub resident-erase :
    (k : Key) (e : Entry) (d : Dict Entry)
    → lookup k d ≡ some e
    → resident (erase k d) + length e.content ≡ resident d
resident-erase k e [] h = cc
resident-erase k e (p ∷ d) h = ground (arith, resident-erase k e d)

-- Each account is at least what the tier holds, and NVMe keeps to its budget.
pub record IsAccounted {D : Type 0} (s : TierStore D) : Type 0 where
  pub dram_keyed : Keyed s.dram
  pub nvme_keyed : Keyed s.nvme_index
  pub dram_sized : Sized s.dram
  pub nvme_sized : Sized s.nvme_index
  pub dram_counted : resident s.dram ≤ s.dram_bytes
  pub nvme_counted : resident s.nvme_index ≤ s.nvme_bytes
  pub nvme_within : s.nvme_bytes ≤ s.nvme_limit

module _ {D : Type 0} (io : FileOps D) where
  evict_one-IsAccounted :
      (k : Key) (v : Entry) (s : TierStore D)
      → lookup k s.dram ≡ some v
      → IsAccounted s
      → IsAccounted (evict_one io k v s)
  unfolding evict_one
  evict_one-IsAccounted k v s h a =
      let sized : v.size_bytes ≡ length v.content = All-lookup _ k v s.dram a.dram_sized h in
      let spilled : Entry = record v { tier = nvme } in
      elim (Bool-cases (leb (s.nvme_bytes + v.size_bytes) s.nvme_limit)) [
        | inl room ↦
            rw (room, spill)
              (record {
                dram_keyed = erase-Keyed k s.dram a.dram_keyed;
                nvme_keyed = insert-Keyed k spilled s.nvme_index a.nvme_keyed;
                dram_sized = All-erase _ k s.dram a.dram_sized;
                nvme_sized = All-insert _ k spilled s.nvme_index sized a.nvme_sized;
                dram_counted = omega (arith, resident-erase k v s.dram h);
                nvme_counted = omega (arith, resident-insert k spilled s.nvme_index);
                nvme_within = ground (arith, room);
              })
        | inr full ↦
            rw (full, spill)
              (record {
                dram_keyed = erase-Keyed k s.dram a.dram_keyed;
                nvme_keyed = a.nvme_keyed;
                dram_sized = All-erase _ k s.dram a.dram_sized;
                nvme_sized = a.nvme_sized;
                dram_counted = omega (arith, resident-erase k v s.dram h);
                nvme_counted = a.nvme_counted;
                nvme_within = a.nvme_within;
              })
      ]

  -- What an eviction leaves alone, and what it counts.
  pub record Evicts (s t : TierStore D) : Type 0 where
    pub same_dram_limit : t.dram_limit ≡ s.dram_limit
    pub same_nvme_limit : t.nvme_limit ≡ s.nvme_limit
    pub counted : t.evictions + length t.dram ≡ s.evictions + length s.dram
    pub same_hits_dram : t.hits_dram ≡ s.hits_dram
    pub same_hits_nvme : t.hits_nvme ≡ s.hits_nvme
    pub same_misses : t.misses ≡ s.misses

  Evicts-refl : (s : TierStore D) → Evicts s s
  Evicts-refl s = ground arith

  Evicts-trans : {s t u : TierStore D} → Evicts s t → Evicts t u → Evicts s u
  Evicts-trans {s} {t} {u} p q = ground arith

  pub evict_one-dram :
      (k : Key) (v : Entry) (s : TierStore D) → (evict_one io k v s).dram ≡ erase k s.dram
  unfolding evict_one
  evict_one-dram k v s = ground arith

  evict_one-Evicts :
      (k : Key) (v : Entry) (s : TierStore D)
      → lookup k s.dram ≡ some v
      → Evicts s (evict_one io k v s)
  unfolding evict_one
  evict_one-Evicts k v s h = ground (arith, length-erase k s.dram v h)

  -- What each eviction of the oldest entry keeps, the loop keeps.
  pub evict_loop-keeps :
      (P : TierStore D → Type 0) (needed : ℕ)
      → ((k : Key) (v : Entry) (s : TierStore D)
          → oldest s.dram ≡ some (k, v)
          → P s
          → P (evict_one io k v s))
      → (fuel : ℕ) (s : TierStore D) → P s
      → P (evict_loop io fuel needed s)
  unfolding evict_loop
  evict_loop-keeps P needed keep zero s p = p
  evict_loop-keeps P needed keep (suc fuel) s p =
      elim (Bool-cases (ltb s.dram_limit (s.dram_bytes + needed))) [
        | inr fits ↦ rw (fits, evict_loop) p
        | inl full ↦ elim (Option-cases (oldest s.dram)) [
          | inl empty ↦ rw (full, empty, evict_loop) p
          | inr ((k, v), found) ↦
              rw (full, found, evict_loop)
                (evict_loop-keeps P needed keep fuel (evict_one io k v s) (keep k v s found p))
        ]
      ]

  -- The invariant and what is left alone, together.
  abbrev pub From : TierStore D → TierStore D → Type 0
  From s t = IsAccounted t × Evicts s t

  evict_one-From :
      (s : TierStore D) (k : Key) (v : Entry) (t : TierStore D)
      → oldest t.dram ≡ some (k, v)
      → From s t
      → From s (evict_one io k v t)
  evict_one-From s k v t found (a, e) =
      let h : lookup k t.dram ≡ some v = oldest-lookup t.dram a.dram_keyed found in
      let one : Evicts t (evict_one io k v t) = evict_one-Evicts k v t h in
      (evict_one-IsAccounted k v t h a, Evicts-trans e one)

  pub evict-From :
      (needed : ℕ) (s : TierStore D) → IsAccounted s → From s (evict_dram_if_needed io needed s)
  unfolding evict_dram_if_needed
  evict-From needed s a =
      evict_loop-keeps (From s) needed (evict_one-From s) (length s.dram) s (a, Evicts-refl s)

  fits_in_fuel :
      (fuel needed : ℕ) (s : TierStore D)
      → IsAccounted s
      → length s.dram ≤ fuel
      → let t = evict_loop io fuel needed s in
        (t.dram_bytes + needed ≤ t.dram_limit) ⊎ (t.dram ≡ [])
  unfolding evict_loop
  fits_in_fuel zero needed s a h = inr (length-eq-zero s.dram (omega arith))
  fits_in_fuel (suc fuel) needed s a h =
      elim (Bool-cases (ltb s.dram_limit (s.dram_bytes + needed))) [
        | inr fits ↦ rw (fits, evict_loop) (inl (ground (arith, fits)))
        | inl full ↦ elim (Option-cases (oldest s.dram)) [
          | inl empty ↦ rw (full, empty, evict_loop) (inr (oldest-none s.dram empty))
          | inr ((k, v), found) ↦
              let at : lookup k s.dram ≡ some v = oldest-lookup s.dram a.dram_keyed found in
              let fewer : length (evict_one io k v s).dram + 1 ≡ length s.dram =
                rw (evict_one-dram k v s) (length-erase k s.dram v at) in
              rw (full, found, evict_loop)
                (fits_in_fuel fuel needed (evict_one io k v s) (evict_one-IsAccounted k v s at a)
                  (omega arith))
        ]
      ]

  -- After the loop the bytes that are needed fit, or DRAM is empty.
  pub evict-fits :
      (needed : ℕ) (s : TierStore D)
      → IsAccounted s
      → let t = evict_dram_if_needed io needed s in
        (t.dram_bytes + needed ≤ t.dram_limit) ⊎ (t.dram ≡ [])
  unfolding evict_dram_if_needed
  evict-fits needed s a = fits_in_fuel (length s.dram) needed s a (omega arith)

  evict_one-nvme-Keyed :
      (k : Key) (v : Entry) (s : TierStore D)
      → oldest s.dram ≡ some (k, v)
      → Keyed s.nvme_index
      → Keyed (evict_one io k v s).nvme_index
  unfolding evict_one
  evict_one-nvme-Keyed k v s found u =
      ground (arith, insert-Keyed k (record v { tier = nvme }) s.nvme_index u)

  pub evict-nvme-Keyed :
      (needed : ℕ) (s : TierStore D)
      → Keyed s.nvme_index
      → Keyed (evict_dram_if_needed io needed s).nvme_index
  unfolding evict_dram_if_needed
  evict-nvme-Keyed needed s =
      evict_loop-keeps (λ t. Keyed t.nvme_index) needed evict_one-nvme-Keyed (length s.dram) s

  -- The loop on its fuel makes room for the bytes that are needed or empties DRAM, counts each entry
  -- that it takes out of DRAM, and leaves the limits alone.
  pub evict_dram_lem :
      (needed : ℕ) (s : TierStore D)
      → IsAccounted s
      → let t = evict_dram_if_needed io needed s in
        ((t.dram_bytes + needed ≤ s.dram_limit) ⊎ (t.dram ≡ []))
        × (t.evictions + length t.dram ≡ s.evictions + length s.dram)
        × (t.dram_limit ≡ s.dram_limit)
        × (t.nvme_limit ≡ s.nvme_limit)
        × IsAccounted t
  evict_dram_lem needed s a =
      let (b, e) = evict-From needed s a in
      let fit = evict-fits needed s a in
      (ground (arith, fit, e.same_dram_limit), e.counted, e.same_dram_limit, e.same_nvme_limit, b)
