-- ===== src/Sparse.antt =====
-- `SparseTransferFilter` of tempo/sparse_transfer.py. A row of a cache is of any type. The attention
-- weights of the probe, which numpy computes, are an argument, and so is `np.argpartition`.
pub mod Masks
pub mod Rows
mod Tests
use working_tempo.Base.{
  ℕ, zero, suc, ◌+◌, ◌-◌, ◌*◌, ◌/◌, max, Bool, true, false, Option, none, some, List, [], ◌∷◌, map,
  if◌then◌else◌, ltb, length, elem, get_elem?, set,
}
use working_tempo.Base.Frac
use working_tempo.Base.Frac.{Frac, frac, whole, le_frac, max_frac, min_frac}

pub record Filter : Type 0 where
  pub threshold : Frac
  pub max_ratio : Frac
  pub min_tokens : ℕ
  pub filter_calls : ℕ
  pub total_tokens : ℕ
  pub hot_tokens : ℕ
  pub total_time : ℕ

abbrev pub new_filter : Frac → Frac → ℕ → Filter
new_filter threshold max_ratio min_tokens = record {
  threshold = threshold;
  max_ratio = max_ratio;
  min_tokens = min_tokens;
  filter_calls = 0;
  total_tokens = 0;
  hot_tokens = 0;
  total_time = 0;
}

pub record SparseKvBlock (Row : Type 0) : Type 0 where
  pub k_sparse : List Row
  pub v_sparse : List Row
  pub hot_indices : List ℕ
  pub context_len : ℕ
  pub layer_id : ℕ
  pub reduction_ratio : Frac

-- `hot_mask.sum()`
unfoldable pub count_hot : List Bool → ℕ
count_hot [] = 0
count_hot (hot ∷ mask) = (if hot then 1 else 0) + count_hot mask

-- `max(self.min_tokens, int(seq_len * self.max_ratio))`
abbrev pub max_count : ℕ → Filter → ℕ
max_count seq_len f = max f.min_tokens (seq_len * f.max_ratio.num / f.max_ratio.den)

-- The mask that is true at these positions, from position `i` on.
unfoldable pub mask_at : ℕ → ℕ → List ℕ → List Bool
mask_at i zero hot = []
mask_at i (suc n) hot = elem i hot ∷ mask_at (i + 1) n hot

-- `hot_mask[-n:] = True`, where `skip` positions stand before.
unfoldable pub mark_last : ℕ → List Bool → List Bool
mark_last skip [] = []
mark_last zero (hot ∷ mask) = true ∷ mark_last zero mask
mark_last (suc skip) (hot ∷ mask) = hot ∷ mark_last skip mask

-- The positions before `hot_mask[-n:]`: `-0` is 0, so that the whole mask is meant where `n` is 0.
unfoldable pub before_last : ℕ → ℕ → ℕ
before_last n seq_len = if ltb 0 n then seq_len - n else 0

-- `np.where(hot_mask)[0]`, from position `i` on.
unfoldable pub where_hot : ℕ → List Bool → List ℕ
where_hot i [] = []
where_hot i (hot ∷ mask) = let rest = where_hot (i + 1) mask in if hot then i ∷ rest else rest

module _ {Row : Type 0} where
  -- `cache[hot_indices]`: none where numpy raises IndexError.
  unfoldable pub gather : List ℕ → List Row → Option (List Row)
  gather [] rows = some []
  gather (i ∷ hot) rows = elim (get_elem? rows i) [
    | none ↦ none
    | some row ↦ elim (gather hot rows) [ none ↦ none | some packed ↦ some (row ∷ packed) ]
  ]

  abbrev pub full : ℕ → Row → List Row
  full zero fill = []
  full (suc n) fill = fill ∷ full n fill

  -- `dense[hot_indices] = sparse`: none where the lengths differ or a position is out of range.
  unfoldable pub scatter : List ℕ → List Row → List Row → Option (List Row)
  scatter [] [] dense = some dense
  scatter (i ∷ hot) (row ∷ rows) dense =
      if ltb i (length dense) then scatter hot rows (set dense i row) else none
  scatter _ _ dense = none

  unfoldable pub reconstruct : SparseKvBlock Row → Row → Option (List Row × List Row)
  unfolding scatter
  reconstruct sparse fill =
      elim (scatter sparse.hot_indices sparse.k_sparse (full sparse.context_len fill)) [
        | none ↦ none
        | some k ↦
            elim (scatter sparse.hot_indices sparse.v_sparse (full sparse.context_len fill)) [
              | none ↦ none
              | some v ↦ some (k, v)
            ]
      ]

module _ (top : List Frac → ℕ → List ℕ) where
  -- `_select_hot`, as its mask and then as the positions. `top scores n` is
  -- `np.argpartition(scores, -n)[-n:]`, the whole array where `n` is 0.
  unfoldable pub hot_mask : List Frac → ℕ → Filter → List Bool
  unfolding count_hot mask_at mark_last before_last
  hot_mask scores seq_len f =
      let above = map (λ (score : Frac). le_frac f.threshold score) scores in
      let capped =
        if ltb (max_count seq_len f) (count_hot above)
        then mask_at 0 seq_len (top scores (max_count seq_len f))
        else above in
      if ltb f.min_tokens seq_len
      then mark_last (before_last f.min_tokens seq_len) capped
      else capped

  unfoldable pub select_hot : List Frac → ℕ → Filter → List ℕ
  unfolding hot_mask where_hot
  select_hot scores seq_len f = where_hot 0 (hot_mask scores seq_len f)

  module _ {Row : Type 0} where
    -- `filter`, with the weights that the probe answers and the time that it takes.
    unfoldable pub filter :
        List Row → List Row → List Frac → ℕ → ℕ → Filter → Option (Filter × SparseKvBlock Row)
    unfolding select_hot gather
    filter k_cache v_cache scores layer_id time f =
        let seq_len = length k_cache in
        let hot = select_hot scores seq_len f in
        elim (gather hot k_cache) [
          | none ↦ none
          | some k_sparse ↦ elim (gather hot v_cache) [
            | none ↦ none
            | some v_sparse ↦ some (
              record f {
                filter_calls = f.filter_calls + 1;
                total_tokens = f.total_tokens + seq_len;
                hot_tokens = f.hot_tokens + length hot;
                total_time = f.total_time + time;
              },
              record {
                k_sparse = k_sparse;
                v_sparse = v_sparse;
                hot_indices = hot;
                context_len = seq_len;
                layer_id = layer_id;
                reduction_ratio = Frac.sub (whole 1) (frac (length hot) (max 1 seq_len));
              },
            )
          ]
        ]

-- `markov_bound` and `empirical_typical` of `estimate_reduction`
unfoldable pub markov_bound : ℕ → Frac → Frac → Frac
markov_bound seq_len threshold max_ratio =
    min_frac max_ratio
      (Frac.div (whole 1) (max_frac (whole 1) (Frac.mul (whole seq_len) threshold)))

unfoldable pub empirical_typical : ℕ → Frac → Frac → Frac
unfolding markov_bound
empirical_typical seq_len threshold max_ratio =
    min_frac max_ratio
      (max_frac (frac 5 100) (Frac.mul (markov_bound seq_len threshold max_ratio) (frac 15 10)))
