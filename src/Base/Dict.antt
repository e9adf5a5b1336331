-- ===== src/Base/Dict.antt =====
-- Python dicts with numbers for keys: the items as they were first inserted.
use working_tempo.Base.Tests.{◌==◌, if◌then◌else◌, Bool-cases, none≢some}
use working_tempo.Base.Lists.{length, All}
use Prim.Native.Nat.{ℕ, ◌+◌}
use mathlib.Core.Path.{◌≡◌, refl, subst}
use mathlib.Core.Logic.{◌≢◌, inl, inr}
use mathlib.Core.Option.{Option, none, some}
use mathlib.Core.List.{List, [], ◌∷◌}
use native.Mathlib.Omega.{arith}

abbrev pub Dict : Type 0 → Type 0
Dict V = List (ℕ × V)

module _ {V : Type 0} where
  -- `d.get(key)`
  abbrev pub lookup : ℕ → Dict V → Option V
  lookup key [] = none
  lookup key (item ∷ items) = if key == item.0 then some item.1 else lookup key items

  -- A dict has each key once.
  abbrev pub Keyed : Dict V → Type 0
  Keyed [] = Unit
  Keyed (item ∷ items) = (lookup item.0 items ≡ none) × Keyed items

  -- `d.pop(key, None)`, without its result
  abbrev pub erase : ℕ → Dict V → Dict V
  erase key [] = []
  erase key (item ∷ items) = if key == item.0 then items else item ∷ erase key items

  -- What another key reads after the removal, and then every key of a dict.
  pub lookup-erase_ne :
      (other key : ℕ) (items : Dict V)
      → other ≢ key
      → lookup other (erase key items) ≡ lookup other items
  lookup-erase_ne other key [] ne = refl
  lookup-erase_ne other key (item ∷ items) ne = ground (arith, lookup-erase_ne other key items ne)

  pub lookup-erase :
      (other key : ℕ) (items : Dict V)
      → Keyed items
      → lookup other (erase key items) ≡ (if other == key then none else lookup other items)
  lookup-erase other key [] u = ground arith
  lookup-erase other key (item ∷ items) u = ground (arith, lookup-erase other key items u.1, u.0)

  pub lookup-erase_self :
      (key : ℕ) (items : Dict V) → Keyed items → lookup key (erase key items) ≡ none
  lookup-erase_self key items u = ground (arith, lookup-erase key key items u)

  pub erase-Keyed : (key : ℕ) (items : Dict V) → Keyed items → Keyed (erase key items)
  erase-Keyed key [] u = tt
  erase-Keyed key (item ∷ items) u =
      ground (arith, erase-Keyed key items u.1, lookup-erase_ne item.0 key items)

  -- `d[key] = v`: in the place of the old item, or at the end.
  abbrev pub insert : ℕ → V → Dict V → Dict V
  insert key v [] = (key, v) ∷ []
  insert key v (item ∷ items) =
      if key == item.0 then (key, v) ∷ items else item ∷ insert key v items

  -- What every key reads after the assignment.
  pub lookup-insert :
      (other key : ℕ) (v : V) (items : Dict V)
      → lookup other (insert key v items) ≡ (if other == key then some v else lookup other items)
  lookup-insert other key v [] = refl
  lookup-insert other key v (item ∷ items) = ground (arith, lookup-insert other key v items)

  pub lookup-insert_self :
      (key : ℕ) (v : V) (items : Dict V) → lookup key (insert key v items) ≡ some v
  lookup-insert_self key v items = ground (arith, lookup-insert key key v items)

  pub lookup-insert_ne :
      (other key : ℕ) (v : V) (items : Dict V)
      → other ≢ key
      → lookup other (insert key v items) ≡ lookup other items
  lookup-insert_ne other key v items ne = ground (arith, lookup-insert other key v items)

  pub insert-Keyed : (key : ℕ) (v : V) (items : Dict V) → Keyed items → Keyed (insert key v items)
  insert-Keyed key v [] u = (refl, tt)
  insert-Keyed key v (item ∷ items) u =
      ground (arith, insert-Keyed key v items u.1, lookup-insert_ne item.0 key v items)

  pub length-erase :
      (k : ℕ) (d : Dict V) (v : V) → lookup k d ≡ some v → length (erase k d) + 1 ≡ length d
  length-erase k [] v h = cc
  length-erase k (e ∷ d) v h = ground (arith, length-erase k d v)

  pub erase_absent : (k : ℕ) (d : Dict V) → lookup k d ≡ none → erase k d ≡ d
  erase_absent k [] h = refl
  erase_absent k (e ∷ d) h = ground (arith, erase_absent k d)

  -- What holds of every entry, under each update.
  module _ (P : ℕ × V → Type 0) where
    pub All-insert : (k : ℕ) (v : V) (d : Dict V) → P (k, v) → All P d → All P (insert k v d)
    All-insert k v [] p h = (p, tt)
    All-insert k v (e ∷ d) p h = elim (Bool-cases (k == e.0)) [
      | inl same ↦ rw same (p, h.1)
      | inr other ↦ rw other (h.0, All-insert k v d p h.1)
    ]

    pub All-erase : (k : ℕ) (d : Dict V) → All P d → All P (erase k d)
    All-erase k [] h = tt
    All-erase k (e ∷ d) h = elim (Bool-cases (k == e.0)) [
      | inl same ↦ rw same h.1
      | inr other ↦ rw other (h.0, All-erase k d h.1)
    ]

    pub All-lookup : (k : ℕ) (v : V) (d : Dict V) → All P d → lookup k d ≡ some v → P (k, v)
    All-lookup k v [] h e = absurd (none≢some e)
    All-lookup k v ((j, w) ∷ d) h e = elim (Bool-cases (k == j)) [
      | inl same ↦ let here : (j, w) ≡ (k, v) = ground (arith, e, same) in subst P here h.0
      | inr other ↦ All-lookup k v d h.1 (ground (arith, e, other))
    ]
