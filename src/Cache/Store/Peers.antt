-- ===== src/Cache/Store/Peers.antt =====
-- `P2PCacheStore` (tempo/p2p_cache.py) end to end: the simulation mode, and the ranks that are reached.
use working_tempo.Base.{
  ℕ, ◌≤◌, ◌<◌, ◌≡◌, refl, inl, inr, true, false, some, List, [], ◌∷◌, ◌++◌, arith, length,
  Bool-cases, ◌==◌, elem, Distinct, ◌∙◌, ap, ap₂, if◌then◌else◌, sym, false≢true,
}
use mathlib.Core.List.{append-nil}
use working_tempo.Base.Dict.{lookup}
use working_tempo.Cache.Ring
use working_tempo.Cache.Tier.{Key, Bytes}
use working_tempo.Cache.Tier.Reads.{view, get-view, view-put_self}
use working_tempo.Cache.Ring.Members.{IsRing}
use working_tempo.Cache.Ring.Walk.{get_nodes_lem}
use working_tempo.Cache.Store.{
  P2PStore, Env, owners_of, remote_put, put_on, put_all, put, get_from, get,
}

module _ {D : Type 0} (env : Env D) (key : Key) where
  -- In the simulation mode each owner's copy is put into the local store.
  simulated_put_on :
      (owner : ℕ) (c : Bytes) (now : ℕ) (s : P2PStore D) (l : List ℕ)
      → s.simulation ≡ true
      → let t = (put_on env owner key c now (s, l)).0 in
        (t.simulation ≡ true)
        × (t.ring ≡ s.ring)
        × (t.replication ≡ s.replication)
        × (view env.io t.local_store key ≡ some c)
  unfolding put_on
  simulated_put_on owner c now s l sim =
      ground (arith, sim, view-put_self env.io key c now s.local_store)

  simulated_put_all :
      (owners : List ℕ) (c : Bytes) (now : ℕ) (s : P2PStore D) (l : List ℕ)
      → s.simulation ≡ true
      → view env.io s.local_store key ≡ some c
      → let t = (put_all env owners key c now (s, l)).0 in
        (t.simulation ≡ true)
        × (t.ring ≡ s.ring)
        × (t.replication ≡ s.replication)
        × (view env.io t.local_store key ≡ some c)
  unfolding put_all
  simulated_put_all [] c now s l sim held = (sim, refl, refl, held)
  simulated_put_all (owner ∷ owners) c now s l sim held =
      let (t, m) = put_on env owner key c now (s, l) in
      let (a, b, d, e) = simulated_put_on owner c now s l sim in
      let (a', b', d', e') = simulated_put_all owners c now t m a e in (a', b' ∙ b, d' ∙ d, e')

  simulated_get :
      (owner : ℕ) (owners : List ℕ) (now : ℕ) (s : P2PStore D) {c : Bytes}
      → s.simulation ≡ true
      → view env.io s.local_store key ≡ some c
      → (get_from env (owner ∷ owners) key now s).1 ≡ some c
  unfolding get_from
  simulated_get owner owners now s sim held =
      ground (arith, sim, held, get-view env.io key now s.local_store)

  -- In the simulation mode, on a ring with a point and with at least one replica asked for, `get`
  -- answers what `put` stored, and neither raises.
  pub get-put :
      (c : Bytes) (now later : ℕ) (s : P2PStore D) (p v : ℕ)
      → s.simulation ≡ true
      → IsRing s.ring
      → lookup p s.ring.points ≡ some v
      → 1 ≤ s.replication
      → (t : P2PStore D) × (l : List ℕ) × (u : P2PStore D) × (put env key c now s ≡ some (t, l))
        × (get env key later t ≡ some (u, some c))
  unfolding put get
  get-put c now later s p v sim r at one =
      let (out, e, _, _, few, _, all) =
        get_nodes_lem env.point env.key_point s.ring r key s.replication in
      from out e all
    where
      from :
          (out : List ℕ)
          → owners_of env key s ≡ some out
          → (length out < s.replication
              → (p v : ℕ) → lookup p s.ring.points ≡ some v
              → elem v out ≡ true)
          → (t : P2PStore D) × (l : List ℕ) × (u : P2PStore D) × (put env key c now s ≡ some (t, l))
            × (get env key later t ≡ some (u, some c))
      from [] e all = let bad : false ≡ true = all one p v at in absurd (false≢true bad)
      from (owner ∷ owners) e all =
          let (m, q) = put_on env owner key c now (s, []) in
          let (a, b, d, f) = simulated_put_on owner c now s [] sim in
          let (t, l) = put_all env owners key c now (m, q) in
          let (a', b', d', f') = simulated_put_all owners c now m q a f in
          let (u, o) = get_from env (owner ∷ owners) key later t in
          let again : owners_of env key t ≡ some (owner ∷ owners) =
            ap₂ (λ n r. Ring.get_nodes env.point env.key_point key n r) (d' ∙ d) (b' ∙ b) ∙ e in
          (
            t,
            l,
            u,
            rw e,
            rw again (ap (λ x. some (u, x)) (simulated_get owner owners later t a' f')),
          )

  put_on_alone :
      (owner : ℕ) (c : Bytes) (now : ℕ) (s : P2PStore D) (l : List ℕ)
      → s.simulation ≡ false
      → s.peer_addrs ≡ []
      → let (t, m) = put_on env owner key c now (s, l) in
        (t.simulation ≡ false)
        × (t.peer_addrs ≡ [])
        × (t.rank ≡ s.rank)
        × (t.puts_remote ≡ s.puts_remote)
        × (m ≡ (if owner == s.rank then l ++ s.rank ∷ [] else l))
  unfolding put_on remote_put
  put_on_alone owner c now s l sim none_known = ground (arith, sim, none_known)

  put_all_alone :
      (owners : List ℕ) (c : Bytes) (now : ℕ) (s : P2PStore D) (l : List ℕ)
      → s.simulation ≡ false
      → s.peer_addrs ≡ []
      → Distinct owners
      → let (t, m) = put_all env owners key c now (s, l) in
        (m ≡ l ++ (if elem s.rank owners then s.rank ∷ [] else []))
        × (t.puts_remote ≡ s.puts_remote)
  unfolding put_all
  put_all_alone [] c now s l sim none_known d = (sym (append-nil l), refl)
  put_all_alone (owner ∷ owners) c now s l sim none_known d =
      let (t, m) = put_on env owner key c now (s, l) in
      let (a, b, k, q, stored) = put_on_alone owner c now s l sim none_known in
      let (ih, same) = put_all_alone owners c now t m a b d.1 in
      elim (Bool-cases (owner == s.rank)) [
        | inl mine ↦
            let me : owner ≡ s.rank = ground (arith, mine) in
            let gone : elem t.rank owners ≡ false = ground (arith, k, me, d.0) in
            (ground (arith, ih, stored, mine, me, gone, append-nil m), same ∙ q)
        | inr other ↦ (ground (arith, ih, stored, other, k), same ∙ q)
      ]

  -- Where no peer's address is known, outside the simulation mode, `put` stores on this rank if it
  -- is one of the owners and nowhere else, and counts no remote store.
  pub put_alone :
      (c : Bytes) (now : ℕ) (s : P2PStore D)
      → IsRing s.ring
      → s.simulation ≡ false
      → s.peer_addrs ≡ []
      → (owners : List ℕ) × (t : P2PStore D) × (owners_of env key s ≡ some owners)
        × (put env key c now s ≡ some (t, if elem s.rank owners then s.rank ∷ [] else []))
        × (t.puts_remote ≡ s.puts_remote)
  unfolding put
  put_alone c now s r sim none_known =
      let (out, e, d, _, _, _, _) =
        get_nodes_lem env.point env.key_point s.ring r key s.replication in
      let (t, l) = put_all env out key c now (s, []) in
      let (stored, same) = put_all_alone out c now s [] sim none_known d in
      (out, t, e, rw e (ap (λ x. some (t, x)) stored), same)
