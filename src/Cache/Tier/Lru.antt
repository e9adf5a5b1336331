-- ===== src/Cache/Tier/Lru.antt =====
-- The choice of the victim of `_evict_dram_if_needed`.
use working_tempo.Base.{
  subst, sym, ◌≤◌, ◌≡◌, ◌⊎◌, inl, inr, refl, true, false, none, some, [], ◌∷◌, arith, ltb, All,
  Bool-cases,
}
use working_tempo.Base.Dict.{Dict, lookup, Keyed}
use working_tempo.Cache.Tier.{Key, Entry, oldest_from, oldest}

-- Nothing that is looked at is older than the choice, nor is the first candidate.
abbrev NoOlder : Entry → Dict Entry → Type 0
NoOlder e d = All (λ p. e.last_access ≤ p.1.last_access) d

NoOlder-weaken :
    (e f : Entry) (d : Dict Entry) → e.last_access ≤ f.last_access → NoOlder f d → NoOlder e d
NoOlder-weaken e f [] h a = tt
NoOlder-weaken e f (p ∷ d) h a = (omega arith, NoOlder-weaken e f d h a.1)

oldest_from_older :
    (k : Key) (e : Entry) (j : Key) (f : Entry) (d : Dict Entry)
    → ltb f.last_access e.last_access ≡ true
    → oldest_from k e ((j, f) ∷ d) ≡ oldest_from j f d
unfolding oldest_from
oldest_from_older k e j f d h = rw (h, oldest_from)

oldest_from_newer :
    (k : Key) (e : Entry) (j : Key) (f : Entry) (d : Dict Entry)
    → ltb f.last_access e.last_access ≡ false
    → oldest_from k e ((j, f) ∷ d) ≡ oldest_from k e d
unfolding oldest_from
oldest_from_newer k e j f d h = rw (h, oldest_from)

oldest_from-le :
    (k : Key) (e : Entry) (d : Dict Entry)
    → ((oldest_from k e d).1.last_access ≤ e.last_access) × NoOlder (oldest_from k e d).1 d
unfolding oldest_from
oldest_from-le k e [] = (omega arith, tt)
oldest_from-le k e ((j, f) ∷ d) = elim (Bool-cases (ltb f.last_access e.last_access)) [
  | inl older ↦
      let (l, r) = oldest_from-le j f d in
      subst (λ (p : Key × Entry). (p.1.last_access ≤ e.last_access) × NoOlder p.1 ((j, f) ∷ d))
        (sym (oldest_from_older k e j f d older)) (ground (arith, l, older), (l, r))
  | inr newer ↦
      let (l, r) = oldest_from-le k e d in
      subst (λ (p : Key × Entry). (p.1.last_access ≤ e.last_access) × NoOlder p.1 ((j, f) ∷ d))
        (sym (oldest_from_newer k e j f d newer)) (l, (ground (arith, l, newer), r))
]

oldest_from-lookup :
    (k : Key) (e : Entry) (d : Dict Entry)
    → Keyed d
    → let (j, f) = oldest_from k e d in ((j ≡ k) × (f ≡ e)) ⊎ (lookup j d ≡ some f)
unfolding oldest_from
oldest_from-lookup k e [] u = inl (refl, refl)
oldest_from-lookup k e ((j, f) ∷ d) u =
    ground (arith, oldest_from-lookup j f d u.1, oldest_from-lookup k e d u.1)

pub oldest-lookup :
    (d : Dict Entry) {k : Key} {e : Entry} → Keyed d → oldest d ≡ some (k, e) → lookup k d ≡ some e
unfolding oldest
oldest-lookup [] u h = cc
oldest-lookup ((j, f) ∷ d) u h = ground (arith, oldest_from-lookup j f d u.1)

oldest-NoOlder :
    (d : Dict Entry) {k : Key} {e : Entry}
    → oldest d ≡ some (k, e)
    → All (λ p. e.last_access ≤ p.1.last_access) d
unfolding oldest
oldest-NoOlder [] h = tt
oldest-NoOlder ((j, f) ∷ d) {e = e} h =
    let (l, r) = oldest_from-le j f d in
    let same : (oldest_from j f d).1 ≡ e = cc in
    subst (λ (g : Entry). NoOlder g ((j, f) ∷ d)) same (l, r)

pub oldest-none : (d : Dict Entry) → oldest d ≡ none → d ≡ []
unfolding oldest
oldest-none [] h = refl
oldest-none (p ∷ d) h = cc

-- The victim of an eviction is an entry of DRAM, under its key, and no entry of DRAM was used less
-- recently.
pub oldest_lem :
    (d : Dict Entry) {k : Key} {e : Entry}
    → Keyed d
    → oldest d ≡ some (k, e)
    → (lookup k d ≡ some e) × All (λ p. e.last_access ≤ p.1.last_access) d
oldest_lem d u h = (oldest-lookup d u h, oldest-NoOlder d h)
