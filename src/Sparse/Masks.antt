-- ===== src/Sparse/Masks.antt =====
-- How many tokens `_select_hot` of tempo/sparse_transfer.py takes, and which it always takes.
use working_tempo.Base.{
  ℕ, zero, suc, ◌+◌, ◌-◌, ◌≤◌, ◌<◌, ◌≡◌, ◌∙◌, ap, inl, inr, refl, Bool, true, false, List, [], ◌∷◌,
  map, arith, Bool-cases, either, length, elem, get_or, ltb, lt→ltb, if◌then◌else◌,
}
use working_tempo.Base.Frac.{Frac, le_frac}
use working_tempo.Sparse.{
  Filter, count_hot, max_count, mask_at, mark_last, before_last, where_hot, hot_mask, select_hot,
}

length-where_hot : (i : ℕ) (mask : List Bool) → length (where_hot i mask) ≡ count_hot mask
unfolding where_hot count_hot
length-where_hot i [] = refl
length-where_hot i (true ∷ mask) = omega (arith, length-where_hot (i + 1) mask)
length-where_hot i (false ∷ mask) = omega (arith, length-where_hot (i + 1) mask)

elem-where_hot_before : (p i : ℕ) (mask : List Bool) → p < i → elem p (where_hot i mask) ≡ false
unfolding where_hot
elem-where_hot_before p i [] h = refl
elem-where_hot_before p i (true ∷ mask) h = ground (arith, elem-where_hot_before p (i + 1) mask)
elem-where_hot_before p i (false ∷ mask) h = elem-where_hot_before p (i + 1) mask (omega arith)

-- A position is listed exactly where the mask is true.
pub elem-where_hot :
    (p i : ℕ) (mask : List Bool) → elem (i + p) (where_hot i mask) ≡ get_or mask p false
unfolding where_hot
elem-where_hot p i [] = refl
elem-where_hot zero i (true ∷ mask) = ground arith
elem-where_hot zero i (false ∷ mask) = elem-where_hot_before (i + 0) (i + 1) mask (omega arith)
elem-where_hot (suc p) i (true ∷ mask) =
    let e : i + suc p ≡ i + 1 + p = omega arith in
    let later = ap (λ (x : ℕ). elem x (where_hot (i + 1) mask)) e in
    ground (arith, later, elem-where_hot p (i + 1) mask)
elem-where_hot (suc p) i (false ∷ mask) =
    let e : i + suc p ≡ i + 1 + p = omega arith in
    ap (λ (x : ℕ). elem x (where_hot (i + 1) mask)) e ∙ elem-where_hot p (i + 1) mask

count_hot-mark_last :
    (skip : ℕ) (mask : List Bool)
    → count_hot (mark_last skip mask) ≤ count_hot mask + (length mask - skip)
unfolding mark_last count_hot
count_hot-mark_last skip [] = omega arith
count_hot-mark_last zero (hot ∷ mask) = ground (arith, count_hot-mark_last zero mask)
count_hot-mark_last (suc skip) (hot ∷ mask) = omega (arith, count_hot-mark_last skip mask)

length-mark_last : (skip : ℕ) (mask : List Bool) → length (mark_last skip mask) ≡ length mask
unfolding mark_last
length-mark_last skip [] = refl
length-mark_last zero (hot ∷ mask) = ap suc (length-mark_last zero mask)
length-mark_last (suc skip) (hot ∷ mask) = ap suc (length-mark_last skip mask)

get_or-mark_last :
    (skip p : ℕ) (mask : List Bool)
    → skip ≤ p
    → p < length mask
    → get_or (mark_last skip mask) p false ≡ true
unfolding mark_last
get_or-mark_last skip p [] h k = absurd (omega arith)
get_or-mark_last zero zero (hot ∷ mask) h k = refl
get_or-mark_last zero (suc p) (hot ∷ mask) h k =
    get_or-mark_last zero p mask (omega arith) (omega arith)
get_or-mark_last (suc skip) zero (hot ∷ mask) h k = absurd (omega arith)
get_or-mark_last (suc skip) (suc p) (hot ∷ mask) h k =
    get_or-mark_last skip p mask (omega arith) (omega arith)

length-mask_at : (i n : ℕ) (hot : List ℕ) → length (mask_at i n hot) ≡ n
unfolding mask_at
length-mask_at i zero hot = refl
length-mask_at i (suc n) hot = ap suc (length-mask_at (i + 1) n hot)

-- A position that has been passed adds nothing, and any other adds one at most.
mask_at_passed :
    (i n q : ℕ) (hot : List ℕ)
    → q < i
    → count_hot (mask_at i n (q ∷ hot)) ≡ count_hot (mask_at i n hot)
unfolding mask_at count_hot
mask_at_passed i zero q hot h = refl
mask_at_passed i (suc n) q hot h = ground (arith, mask_at_passed (i + 1) n q hot)

mask_at_one :
    (i n q : ℕ) (hot : List ℕ) → count_hot (mask_at i n (q ∷ hot)) ≤ count_hot (mask_at i n hot) + 1
unfolding mask_at count_hot
mask_at_one i zero q hot = omega arith
mask_at_one i (suc n) q hot =
    ground (arith, mask_at_passed (i + 1) n q hot, mask_at_one (i + 1) n q hot)

mask_at_none : (i n : ℕ) → count_hot (mask_at i n []) ≡ 0
unfolding mask_at count_hot
mask_at_none i zero = refl
mask_at_none i (suc n) = omega (arith, mask_at_none (i + 1) n)

count_hot-mask_at : (i n : ℕ) (hot : List ℕ) → count_hot (mask_at i n hot) ≤ length hot
count_hot-mask_at i n [] = omega (arith, mask_at_none i n)
count_hot-mask_at i n (q ∷ hot) = omega (arith, mask_at_one i n q hot, count_hot-mask_at i n hot)

length-above :
    (threshold : Frac) (scores : List Frac)
    → length (map (λ (score : Frac). le_frac threshold score) scores) ≡ length scores
length-above threshold [] = refl
length-above threshold (s ∷ scores) = ap suc (length-above threshold scores)

before_last-some : (n seq_len : ℕ) → 0 < n → before_last n seq_len ≡ seq_len - n
unfolding before_last
before_last-some n seq_len h = ground arith

-- What a mask has: a value for each token, and not more of them true than the cap.
pub record IsCapped (seq_len cap : ℕ) (mask : List Bool) : Type 0 where
  pub size : length mask ≡ seq_len
  pub hot : count_hot mask ≤ cap

last-IsCapped :
    (seq_len cap recent : ℕ) (mask : List Bool)
    → 0 < recent
    → IsCapped seq_len cap mask
    → IsCapped seq_len
        (cap + recent)
        (if ltb recent seq_len then mark_last (before_last recent seq_len) mask else mask)
last-IsCapped seq_len cap recent mask some_recent h =
    rw (before_last-some recent seq_len some_recent) (
      either (λ (m : List Bool). IsCapped seq_len (cap + recent) m) (ltb recent seq_len)
        (record {
          size = length-mark_last (seq_len - recent) mask ∙ h.size;
          hot = omega (arith, count_hot-mark_last (seq_len - recent) mask, h.hot, h.size);
        })
        (record { size = h.size; hot = omega (arith, h.hot) }))

last_marked :
    (seq_len recent p : ℕ) (mask : List Bool)
    → length mask ≡ seq_len
    → 0 < recent
    → recent < seq_len
    → seq_len ≤ p + recent
    → p < seq_len
    → get_or
        (if ltb recent seq_len then mark_last (before_last recent seq_len) mask else mask)
        p
        false
      ≡ true
last_marked seq_len recent p mask size some_recent long late within =
    rw (lt→ltb recent seq_len long, before_last-some recent seq_len some_recent)
      (get_or-mark_last (seq_len - recent) p mask (omega arith) (omega (arith, size)))

module _ (top : List Frac → ℕ → List ℕ) where
  capping-IsCapped :
      (scores : List Frac) (seq_len : ℕ) (f : Filter)
      → 0 < f.min_tokens
      → ((n : ℕ) → 0 < n → length (top scores n) ≤ n)
      → length scores ≡ seq_len
      → let above = map (λ (score : Frac). le_frac f.threshold score) scores in
        IsCapped seq_len (max_count seq_len f) (
          if ltb (max_count seq_len f) (count_hot above)
          then mask_at 0 seq_len (top scores (max_count seq_len f))
          else above)
  capping-IsCapped scores seq_len f some_tokens few size =
      let above = map (λ (score : Frac). le_frac f.threshold score) scores in
      let n = max_count seq_len f in
      let cut : IsCapped seq_len n (mask_at 0 seq_len (top scores n)) = record {
        size = length-mask_at 0 seq_len (top scores n);
        hot = omega (arith, count_hot-mask_at 0 seq_len (top scores n), few n (ground arith));
      } in
      elim (Bool-cases (ltb n (count_hot above))) [
        | inl over ↦ rw over cut
        | inr under ↦
            rw under (record {
              size = length-above f.threshold scores ∙ size;
              hot = ground (arith, under);
            })
      ]

  -- A mask has a value for each token.
  pub length-hot_mask :
      (scores : List Frac) (seq_len : ℕ) (f : Filter)
      → length scores ≡ seq_len
      → length (hot_mask top scores seq_len f) ≡ seq_len
  unfolding hot_mask
  length-hot_mask scores seq_len f size =
      let above = map (λ (score : Frac). le_frac f.threshold score) scores in
      let n = max_count seq_len f in
      let capped = if ltb n (count_hot above) then mask_at 0 seq_len (top scores n) else above in
      let long : length capped ≡ seq_len =
        either (λ (m : List Bool). length m ≡ seq_len) (ltb n (count_hot above))
          (length-mask_at 0 seq_len (top scores n)) (length-above f.threshold scores ∙ size) in
      either (λ (m : List Bool). length m ≡ seq_len) (ltb f.min_tokens seq_len)
        (length-mark_last (before_last f.min_tokens seq_len) capped ∙ long) long

  pub hot_mask-IsCapped :
      (scores : List Frac) (seq_len : ℕ) (f : Filter)
      → 0 < f.min_tokens
      → ((n : ℕ) → 0 < n → length (top scores n) ≤ n)
      → length scores ≡ seq_len
      → IsCapped seq_len (max_count seq_len f + f.min_tokens) (hot_mask top scores seq_len f)
  unfolding hot_mask
  hot_mask-IsCapped scores seq_len f some_tokens few size =
      last-IsCapped seq_len (max_count seq_len f) f.min_tokens _ some_tokens
        (capping-IsCapped scores seq_len f some_tokens few size)

  -- With at least one of `min_tokens`, and a partition that answers at most the number of positions
  -- asked for: at most `max_count` and
  -- `min_tokens` tokens are transferred, and where the context is longer than `min_tokens`, each of the
  -- last `min_tokens` is.
  pub select_hot_lem :
      (scores : List Frac) (seq_len p : ℕ) (f : Filter)
      → 0 < f.min_tokens
      → ((n : ℕ) → 0 < n → length (top scores n) ≤ n)
      → length scores ≡ seq_len
      → f.min_tokens < seq_len
      → seq_len ≤ p + f.min_tokens
      → p < seq_len
      → let hot = select_hot top scores seq_len f in
        (length hot ≤ max_count seq_len f + f.min_tokens) × (elem p hot ≡ true)
  unfolding select_hot hot_mask
  select_hot_lem scores seq_len p f some_tokens few size long late within =
      let mask = hot_mask top scores seq_len f in
      let c = hot_mask-IsCapped scores seq_len f some_tokens few size in
      let zero_add : p ≡ 0 + p = omega arith in
      (
        omega (arith, length-where_hot 0 mask, c.hot),
        ap (λ (x : ℕ). elem x (where_hot 0 mask)) zero_add
            ∙ elem-where_hot p 0 mask
            ∙ last_marked seq_len f.min_tokens p _
                (capping-IsCapped scores seq_len f some_tokens few size).size some_tokens long late
                within,
      )
