-- ===== src/Nano/Pool.antt =====
-- The pinned buffers of tempo/nano_overlap.py.
use working_tempo.Base.{
  ℕ, zero, suc, ◌%◌, ◌≤◌, ◌<◌, ◌≡◌, refl, sym, ap, subst, ◌∙◌, inl, inr, Option, none, some, List,
  [], ◌∷◌, length, get_elem?, arith, Bool-cases, ltb, if_true, if_false,
}
use native.Mathlib.Nat.{mod-lt, zero-lt-suc}
use working_tempo.Nano.{repeated, get, resize_if_needed}

-- A buffer that is given out and is large enough.
abbrev pub Holds : ℕ → Option ℕ → Type 0
Holds required none = ⊥
Holds required (some buf) = required ≤ buf

length-repeated : (n x : ℕ) → length (repeated n x) ≡ n
length-repeated zero x = refl
length-repeated (suc n) x = ap suc (length-repeated n x)

get_elem?-repeated :
    (n x i required : ℕ) → i < n → required ≤ x → Holds required (get_elem? (repeated n x) i)
get_elem?-repeated zero x i required lt le = absurd (omega arith)
get_elem?-repeated (suc n) x zero required lt le = le
get_elem?-repeated (suc n) x (suc i) required lt le =
    get_elem?-repeated n x i required (omega arith) le

-- One size for all the buffers, which is at least `required`.
IsUniform : ℕ → ℕ → List ℕ → Type 0
IsUniform required n pool = (size : ℕ) × (required ≤ size) × (pool ≡ repeated n size)

resize_if_needed-IsUniform :
    (n size required : ℕ)
    → IsUniform required (suc n) (resize_if_needed required (repeated (suc n) size))
unfolding resize_if_needed IsUniform
resize_if_needed-IsUniform n size required = elim (Bool-cases (ltb size required)) [
  | inl small ↦ (
    required,
    omega arith,
    if_true (ltb size required) _ _ small
        ∙ ap (λ (k : ℕ). required ∷ repeated k required) (length-repeated n size),
  )
  | inr large ↦ (size, ground (arith, large), if_false (ltb size required) _ _ large)
]

-- `resize_if_needed` for one tensor after the other.
abbrev pub resized : List ℕ → List ℕ → List ℕ
resized [] pool = pool
resized (required ∷ more) pool = resized more (resize_if_needed required pool)

resized-IsUniform :
    (sizes : List ℕ) (n low : ℕ) (pool : List ℕ)
    → IsUniform low (suc n) pool
    → IsUniform 0 (suc n) (resized sizes pool)
unfolding IsUniform
resized-IsUniform [] n low pool (size, le, same) = (size, omega arith, same)
resized-IsUniform (required ∷ sizes) n low pool (size, le, same) =
    resized-IsUniform sizes n required (resize_if_needed required pool) (
      subst (λ (p : List ℕ). IsUniform required (suc n) (resize_if_needed required p)) (sym same)
        (resize_if_needed-IsUniform n size required))

get-IsUniform :
    (n required layer_id : ℕ) (pool : List ℕ)
    → IsUniform required (suc n) pool
    → Holds required (get layer_id pool)
unfolding get IsUniform
get-IsUniform n required layer_id pool (size, le, same) =
    subst (λ (p : List ℕ). Holds required (get layer_id p)) (sym same)
      (get_elem?-repeated (suc n) size (layer_id % suc (length (repeated n size))) required
        (subst (λ k. layer_id % suc (length (repeated n size)) < suc k) (length-repeated n size)
          (mod-lt layer_id (zero-lt-suc (length (repeated n size)))))
        le)

-- From a pool of at least one buffer, and after it has grown for any tensors, the buffer that a layer
-- is given once the pool is resized for its tensor has room for the whole of it, whatever the layer.
pub get-resize_if_needed :
    (n size layer_id required : ℕ) (sizes : List ℕ)
    → Holds required
        (get layer_id (resize_if_needed required (resized sizes (repeated (suc n) size))))
unfolding IsUniform
get-resize_if_needed n size layer_id required sizes =
    let (s, le, same) =
      resized-IsUniform sizes n 0 (repeated (suc n) size) (size, omega arith, refl) in
    get-IsUniform n required layer_id _ (
      subst (λ (p : List ℕ). IsUniform required (suc n) (resize_if_needed required p)) (sym same)
        (resize_if_needed-IsUniform n s required))
