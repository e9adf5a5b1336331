-- ===== src/Sparse/Rows.antt =====
-- What the receiver of tempo/sparse_transfer.py reconstructs.
use working_tempo.Base.{
  ℕ, max, ◌+◌, ◌<◌, ◌≡◌, ◌∙◌, sym, ap, subst, refl, Bool, true, false, Option, none, some, List, [],
  ◌∷◌, ◌++◌, arith, length, length-append, get_elem?, set, ltb, lt→ltb, if◌then◌else◌, if_true,
}
use mathlib.Core.List.{append_assoc}
use working_tempo.Base.Frac.{Frac, frac, whole}
use working_tempo.Base.Frac
use working_tempo.Sparse.{
  Filter, SparseKvBlock, where_hot, hot_mask, select_hot, gather, filter, full, scatter,
  reconstruct,
}
use working_tempo.Sparse.Masks.{length-hot_mask}

-- The state, and then the block, that `filter` returns.
abbrev counted : ℕ → ℕ → List ℕ → Filter → Filter
counted seq_len time hot f = record f {
  filter_calls = f.filter_calls + 1;
  total_tokens = f.total_tokens + seq_len;
  hot_tokens = f.hot_tokens + length hot;
  total_time = f.total_time + time;
}

module _ {Row : Type 0} where
  abbrev packed : ℕ → ℕ → List ℕ → List Row → List Row → SparseKvBlock Row
  packed seq_len layer_id hot k v = record {
    k_sparse = k;
    v_sparse = v;
    hot_indices = hot;
    context_len = seq_len;
    layer_id = layer_id;
    reduction_ratio = Frac.sub (whole 1) (frac (length hot) (max 1 seq_len));
  }

  -- The rows at which the mask is true, and the rows with all others replaced.
  pack : List Bool → List Row → List Row
  pack [] rows = []
  pack (hot ∷ mask) [] = []
  pack (true ∷ mask) (row ∷ rows) = row ∷ pack mask rows
  pack (false ∷ mask) (row ∷ rows) = pack mask rows

  abbrev pub masked : List Bool → List Row → Row → List Row
  masked [] rows fill = []
  masked (hot ∷ mask) [] fill = []
  masked (hot ∷ mask) (row ∷ rows) fill = (if hot then row else fill) ∷ masked mask rows fill

  get_elem-append :
      (pre : List Row) (row : Row) (rows : List Row)
      → get_elem? (pre ++ row ∷ rows) (length pre) ≡ some row
  get_elem-append [] row rows = refl
  get_elem-append (x ∷ pre) row rows = get_elem-append pre row rows

  set-append :
      (pre : List Row) (old row : Row) (rows : List Row)
      → set (pre ++ old ∷ rows) (length pre) row ≡ pre ++ row ∷ rows
  set-append [] old row rows = refl
  set-append (x ∷ pre) old row rows = ap (◌∷◌ x) (set-append pre old row rows)

  -- Behind one row more.
  gather_rest :
      (mask : List Bool) (row : Row) (rows pre : List Row)
      → gather (where_hot (length (pre ++ row ∷ [])) mask) ((pre ++ row ∷ []) ++ rows)
        ≡ some (pack mask rows)
      → gather (where_hot (length pre + 1) mask) (pre ++ row ∷ rows) ≡ some (pack mask rows)
  gather_rest mask row rows pre h =
      let count : length (pre ++ row ∷ []) ≡ length pre + 1 =
        omega (arith, length-append pre (row ∷ [])) in
      let whole = append_assoc pre (row ∷ []) rows in
      subst (λ (n : ℕ). gather (where_hot n mask) (pre ++ row ∷ rows) ≡ some (pack mask rows)) count
        (subst
          (λ (all : List Row).
            gather (where_hot (length (pre ++ row ∷ [])) mask) all ≡ some (pack mask rows))
          whole h)

  gather_found :
      (i : ℕ) (hot : List ℕ) (rows : List Row) (row : Row) (packed : List Row)
      → get_elem? rows i ≡ some row
      → gather hot rows ≡ some packed
      → gather (i ∷ hot) rows ≡ some (row ∷ packed)
  unfolding gather
  gather_found i hot rows row packed e h = rw (e, gather, h) refl

  gather_step :
      (hot : Bool) (mask : List Bool) (row : Row) (rows pre : List Row)
      → get_elem? (pre ++ row ∷ rows) (length pre) ≡ some row
      → gather (where_hot (length pre + 1) mask) (pre ++ row ∷ rows) ≡ some (pack mask rows)
      → gather (where_hot (length pre) (hot ∷ mask)) (pre ++ row ∷ rows)
        ≡ some (pack (hot ∷ mask) (row ∷ rows))
  unfolding gather where_hot pack
  gather_step true mask row rows pre there rest =
      gather_found (length pre) (where_hot (length pre + 1) mask) (pre ++ row ∷ rows) row
        (pack mask rows) there rest
  gather_step false mask row rows pre there rest = rest

  gather-pack :
      (mask : List Bool) (rows pre : List Row)
      → length mask ≡ length rows
      → gather (where_hot (length pre) mask) (pre ++ rows) ≡ some (pack mask rows)
  unfolding gather where_hot pack
  gather-pack [] rows pre h = refl
  gather-pack (hot ∷ mask) [] pre h = absurd (omega arith)
  gather-pack (hot ∷ mask) (row ∷ rows) pre h =
      let there = get_elem-append pre row rows in
      let rest =
        gather_rest mask row rows pre
          (gather-pack mask rows (pre ++ row ∷ []) (omega (arith, h))) in
      gather_step hot mask row rows pre there rest

  scatter_one :
      (i : ℕ) (hot : List ℕ) (row : Row) (rows dense : List Row)
      → i < length dense
      → scatter (i ∷ hot) (row ∷ rows) dense ≡ scatter hot rows (set dense i row)
  unfolding scatter
  scatter_one i hot row rows dense h =
      if_true (ltb i (length dense)) (scatter hot rows (set dense i row)) none
        (lt→ltb i (length dense) h)

  -- Behind one row more, of whichever value.
  scatter_rest :
      (mask : List Bool) (row fill : Row) (rows pre : List Row)
      → scatter
          (where_hot (length (pre ++ row ∷ [])) mask)
          (pack mask rows)
          ((pre ++ row ∷ []) ++ full (length mask) fill)
        ≡ some ((pre ++ row ∷ []) ++ masked mask rows fill)
      → scatter
          (where_hot (length pre + 1) mask)
          (pack mask rows)
          (pre ++ row ∷ full (length mask) fill)
        ≡ some (pre ++ row ∷ masked mask rows fill)
  scatter_rest mask row fill rows pre h =
      let count : length (pre ++ row ∷ []) ≡ length pre + 1 =
        omega (arith, length-append pre (row ∷ [])) in
      let before = append_assoc pre (row ∷ []) (full (length mask) fill) in
      let after = append_assoc pre (row ∷ []) (masked mask rows fill) in
      sym (
        ap
          (λ (n : ℕ).
            scatter (where_hot n mask) (pack mask rows) (pre ++ row ∷ full (length mask) fill))
          count)
      ∙ sym (
          ap
            (λ (dense : List Row).
              scatter (where_hot (length (pre ++ row ∷ [])) mask) (pack mask rows) dense)
            before)
      ∙ h
      ∙ ap some after

  scatter_step :
      (hot : Bool) (mask : List Bool) (row fill : Row) (rows pre : List Row)
      → scatter
          (where_hot (length pre + 1) mask)
          (pack mask rows)
          (pre ++ (if hot then row else fill) ∷ full (length mask) fill)
        ≡ some (pre ++ (if hot then row else fill) ∷ masked mask rows fill)
      → scatter
          (where_hot (length pre) (hot ∷ mask))
          (pack (hot ∷ mask) (row ∷ rows))
          (pre ++ full (length (hot ∷ mask)) fill)
        ≡ some (pre ++ masked (hot ∷ mask) (row ∷ rows) fill)
  unfolding where_hot pack
  scatter_step true mask row fill rows pre h =
      let dense = pre ++ fill ∷ full (length mask) fill in
      let room : length pre < length dense =
        omega (arith, length-append pre (fill ∷ full (length mask) fill)) in
      scatter_one (length pre) (where_hot (length pre + 1) mask) row (pack mask rows) dense room
      ∙ ap (λ (d : List Row). scatter (where_hot (length pre + 1) mask) (pack mask rows) d)
          (set-append pre fill row (full (length mask) fill))
      ∙ h
  scatter_step false mask row fill rows pre h = h

  scatter-pack :
      (mask : List Bool) (fill : Row) (rows pre : List Row)
      → length mask ≡ length rows
      → scatter (where_hot (length pre) mask) (pack mask rows) (pre ++ full (length mask) fill)
        ≡ some (pre ++ masked mask rows fill)
  unfolding scatter where_hot pack
  scatter-pack [] fill rows pre h = refl
  scatter-pack (hot ∷ mask) fill [] pre h = absurd (omega arith)
  scatter-pack (hot ∷ mask) fill (row ∷ rows) pre h =
      let kept : Row = if hot then row else fill in
      scatter_step hot mask row fill rows pre (
        scatter_rest mask kept fill rows pre
          (scatter-pack mask fill rows (pre ++ kept ∷ []) (omega (arith, h))))

  reconstruct_found :
      (block : SparseKvBlock Row) (fill : Row) (k v : List Row)
      → scatter block.hot_indices block.k_sparse (full block.context_len fill) ≡ some k
      → scatter block.hot_indices block.v_sparse (full block.context_len fill) ≡ some v
      → reconstruct block fill ≡ some (k, v)
  unfolding reconstruct
  reconstruct_found block fill k v e g =
      ap
        (λ (o : Option (List Row)). elim o [
          | none ↦ none
          | some x ↦ elim (scatter block.hot_indices block.v_sparse (full block.context_len fill)) [
            | none ↦ none
            | some y ↦ some (x, y)
          ]
        ])
        e
      ∙ ap (λ (o : Option (List Row)). elim o [ none ↦ none | some y ↦ some (k, y) ]) g

  module _ (top : List Frac → ℕ → List ℕ) where
    filter_found :
        (k_cache v_cache k v : List Row) (scores : List Frac) (layer_id time : ℕ) (f : Filter)
        → gather (select_hot top scores (length k_cache) f) k_cache ≡ some k
        → gather (select_hot top scores (length k_cache) f) v_cache ≡ some v
        → filter top k_cache v_cache scores layer_id time f
          ≡ some (
            counted (length k_cache) time (select_hot top scores (length k_cache) f) f,
            packed (length k_cache) layer_id (select_hot top scores (length k_cache) f) k v,
          )
    unfolding filter
    filter_found k_cache v_cache k v scores layer_id time f e g = rw (e, g, filter) refl

    -- With one weight and one row of values for each row of keys, and whatever rows the partition
    -- answers, `filter` raises no error and counts the tokens, and what the receiver reconstructs is the
    -- keys and the values with every row that was not selected replaced by the fill value: each row that
    -- is transferred is in its old place.
    pub reconstruct-filter :
        (k_cache v_cache : List Row) (scores : List Frac) (layer_id time : ℕ) (fill : Row)
        (f : Filter)
        → length scores ≡ length k_cache
        → length v_cache ≡ length k_cache
        → let mask = hot_mask top scores (length k_cache) f in
          (f' : Filter) × (block : SparseKvBlock Row) × (filter top k_cache v_cache scores layer_id
              time f
            ≡ some (f', block))
          × (f'.total_tokens ≡ f.total_tokens + length k_cache)
          × (f'.hot_tokens ≡ f.hot_tokens + length block.hot_indices)
          × (reconstruct block fill ≡ some (masked mask k_cache fill, masked mask v_cache fill))
    unfolding filter reconstruct select_hot
    reconstruct-filter k_cache v_cache scores layer_id time fill f size same =
        let mask = hot_mask top scores (length k_cache) f in
        let whole_mask = length-hot_mask top scores (length k_cache) f size in
        let long : length mask ≡ length v_cache = whole_mask ∙ sym same in
        let k = gather-pack mask k_cache [] whole_mask in
        let v = gather-pack mask v_cache [] long in
        let k' = scatter-pack mask fill k_cache [] whole_mask in
        let v' = scatter-pack mask fill v_cache [] long in
        let hot = where_hot 0 mask in
        let all = λ (rows : List Row).
          ap (λ (n : ℕ). scatter hot (pack mask rows) (full n fill)) (sym whole_mask) in
        let block = packed (length k_cache) layer_id hot (pack mask k_cache) (pack mask v_cache) in
        (
          counted (length k_cache) time hot f,
          block,
          filter_found k_cache v_cache (pack mask k_cache) (pack mask v_cache) scores layer_id time
              f k v,
          refl,
          refl,
          reconstruct_found block fill (masked mask k_cache fill) (masked mask v_cache fill)
              (all k_cache ∙ k') (all v_cache ∙ v'),
        )
