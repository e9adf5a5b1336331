-- ===== src/Sparse/Tests.antt =====
-- Tests of tempo/sparse_transfer.py, and the theorems at a concrete cache.
use working_tempo.Base.{ℕ, ◌+◌, ◌≤◌, ◌≡◌, refl, true, some, List, [], ◌∷◌, arith, length, elem}
use working_tempo.Base.Frac.{Frac, frac, whole}
use working_tempo.Sparse.{
  Filter, new_filter, SparseKvBlock, max_count, hot_mask, select_hot, filter, reconstruct,
  where_hot, mark_last, mask_at, count_hot,
}
use working_tempo.Sparse.Masks.{select_hot_lem}
use working_tempo.Sparse.Rows.{masked, reconstruct-filter}

-- A partition that answers the first positions.
abbrev first : ℕ → List ℕ
first Prim.Native.Nat.zero = []
first (Prim.Native.Nat.suc n) = n ∷ first n

length-first : (n : ℕ) → length (first n) ≤ n
length-first Prim.Native.Nat.zero = omega arith
length-first (Prim.Native.Nat.suc n) = omega (arith, length-first n)

abbrev top : List Frac → ℕ → List ℕ
top scores n = first n

abbrev scores : List Frac
scores = frac 90 100 ∷ frac 1 1000 ∷ frac 1 1000 ∷ frac 98 1000 ∷ []

abbrev filt : Filter
filt = new_filter (frac 1 100) (frac 20 100) 1

-- The first token by its weight, and the last as the most recent.
selected : select_hot top scores 4 filt ≡ 0 ∷ 3 ∷ []
unfolding select_hot hot_mask where_hot mark_last mask_at count_hot
selected = refl

-- In a context that is not longer than `min_tokens` the last tokens are not always taken.
short_context :
    select_hot top (whole 1 ∷ whole 0 ∷ []) 2 (new_filter (frac 1 100) (frac 20 100) 64) ≡ 0 ∷ []
unfolding select_hot hot_mask where_hot mark_last mask_at count_hot
short_context = refl

select_hot_lem_run :
    let hot = select_hot top scores 4 filt in
    (length hot ≤ max_count 4 filt + 1) × (elem 3 hot ≡ true)
select_hot_lem_run =
    select_hot_lem top scores 4 3 filt (omega arith) (λ n some_asked. length-first n) refl
      (omega arith) (omega arith) (omega arith)

abbrev keys : List ℕ
keys = 10 ∷ 11 ∷ 12 ∷ 13 ∷ []

abbrev values : List ℕ
values = 20 ∷ 21 ∷ 22 ∷ 23 ∷ []

reconstruct-filter_example :
    let mask = hot_mask top scores 4 filt in
    (f' : Filter) × (block : SparseKvBlock ℕ) × (filter top keys values scores 0 3 filt
      ≡ some (f', block))
    × (f'.total_tokens ≡ 0 + 4)
    × (f'.hot_tokens ≡ 0 + length block.hot_indices)
    × (reconstruct block 0 ≡ some (masked mask keys 0, masked mask values 0))
reconstruct-filter_example = reconstruct-filter top keys values scores 0 3 0 filt refl refl
