-- ===== src/Cache/Store/Local.antt =====
-- The operations of `P2PCacheStore` (tempo/p2p_cache.py) and the local store's accounts.
use working_tempo.Base.{
  ℕ, ◌+◌, ◌≤◌, ◌≡◌, Option, some, List, [], ◌∷◌, arith, length, max, length-append,
}
use working_tempo.Cache.Ring.Members.{IsRing}
use working_tempo.Cache.Ring.Walk.{get_nodes_lem}
use working_tempo.Cache.Tier.{Key, Bytes, Entry, FileOps, TierStore}
use working_tempo.Cache.Tier
use working_tempo.Cache.Tier.Budget.{IsAccounted}
use working_tempo.Cache.Tier.Accounts.{put-IsAccounted, get-IsAccounted}
use working_tempo.Cache.Store.{P2PStore, Env, put_on, put_all, put, get_from, get}

module _ {D : Type 0} (env : Env D) (key : Key) where
  put_on-IsAccounted :
      (owner : ℕ) (c : Bytes) (now : ℕ) (s : P2PStore D) (l : List ℕ)
      → IsAccounted s.local_store
      → IsAccounted (put_on env owner key c now (s, l)).0.local_store
  unfolding put_on
  put_on-IsAccounted owner c now s l a =
      ground (arith, put-IsAccounted env.io key c now s.local_store a)

  length-put_on :
      (owner : ℕ) (c : Bytes) (now : ℕ) (s : P2PStore D) (l : List ℕ)
      → length (put_on env owner key c now (s, l)).1 ≤ length l + 1
  unfolding put_on
  length-put_on owner c now s l =
      ground (arith, length-append l (s.rank ∷ []), length-append l (owner ∷ []))

  length-put_all :
      (owners : List ℕ) (c : Bytes) (now : ℕ) (s : P2PStore D) (l : List ℕ)
      → length (put_all env owners key c now (s, l)).1 ≤ length l + length owners
  unfolding put_all
  length-put_all [] c now s l = omega arith
  length-put_all (owner ∷ owners) c now s l =
      let (t, m) = put_on env owner key c now (s, l) in
      omega (arith, length-put_all owners c now t m, length-put_on owner c now s l)

  put_all-IsAccounted :
      (owners : List ℕ) (c : Bytes) (now : ℕ) (s : P2PStore D) (l : List ℕ)
      → IsAccounted s.local_store
      → IsAccounted (put_all env owners key c now (s, l)).0.local_store
  unfolding put_all
  put_all-IsAccounted [] c now s l a = a
  put_all-IsAccounted (owner ∷ owners) c now s l a =
      let (t, m) = put_on env owner key c now (s, l) in
      put_all-IsAccounted owners c now t m (put_on-IsAccounted owner c now s l a)

  get_from-IsAccounted :
      (owners : List ℕ) (now : ℕ) (s : P2PStore D)
      → IsAccounted s.local_store
      → IsAccounted (get_from env owners key now s).0.local_store
  unfolding get_from
  get_from-IsAccounted [] now s a = a
  get_from-IsAccounted (owner ∷ owners) now s a =
      let l = (Tier.get env.io key now s.local_store).0 in
      let b = get-IsAccounted env.io key now s.local_store a in
      ground (
        arith,
        b,
        get_from-IsAccounted owners now (record s { local_store = l }) b,
        get_from-IsAccounted owners now s a,
      )

  -- On a ring `put` ends without an error and keeps the local accounts, and it names at most one
  -- rank for each replica.
  pub put_lem :
      (c : Bytes) (now : ℕ) (s : P2PStore D)
      → IsRing s.ring
      → IsAccounted s.local_store
      → (t : P2PStore D) × (l : List ℕ) × (put env key c now s ≡ some (t, l))
        × IsAccounted t.local_store
        × (length l ≤ max 1 s.replication)
  unfolding put
  put_lem c now s r a =
      let (out, e, _, _, few, _, _) =
        get_nodes_lem env.point env.key_point s.ring r key s.replication in
      let (t, l) = put_all env out key c now (s, []) in
      (
        t,
        l,
        rw e,
        put_all-IsAccounted out c now s [] a,
        omega (arith, length-put_all out c now s []),
      )

  -- On a ring `get` ends without an error and keeps the local accounts.
  pub get_lem :
      (now : ℕ) (s : P2PStore D)
      → IsRing s.ring
      → IsAccounted s.local_store
      → (t : P2PStore D) × (o : Option Bytes) × (get env key now s ≡ some (t, o))
        × IsAccounted t.local_store
  unfolding get
  get_lem now s r a =
      let (out, e, _, _, _, _, _) =
        get_nodes_lem env.point env.key_point s.ring r key s.replication in
      let (t, o) = get_from env out key now s in (t, o, rw e, get_from-IsAccounted out now s a)
