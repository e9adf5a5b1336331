-- ===== src/Cache/Store.antt =====
-- `P2PCacheStore` of tempo/p2p_cache.py: the ring in front of the local store and of the peers. What a
-- peer answers over its socket is a parameter; one operation reads the clock once. `none` is an
-- error raised by the ring.
pub mod Local
pub mod Peers
mod Tests
use working_tempo.Base.{
  ℕ, ◌+◌, Bool, true, false, ◌||◌, Option, none, some, List, [], ◌∷◌, ◌++◌, if◌then◌else◌, ◌==◌,
  elem,
}
use working_tempo.Base.Dict.{Dict, lookup, erase}
use working_tempo.Cache.Ring
use working_tempo.Cache.Ring.{Ring}
use working_tempo.Cache.Tier
use working_tempo.Cache.Tier.{Key, Bytes, FileOps, TierStore}

pub record P2PStore (D : Type 0) : Type 0 where
  pub rank : ℕ
  pub replication : ℕ
  pub simulation : Bool
  pub local_store : TierStore D
  pub ring : Ring
  pub peer_addrs : Dict ℕ
  pub puts_local : ℕ
  pub puts_remote : ℕ
  pub gets_local : ℕ
  pub gets_remote : ℕ
  pub gets_miss : ℕ

-- MD5 of a virtual node and of a key, the files, and the requests to the peer at an address: whether
-- "put" was sent, and the data that "get" brought whole.
pub record Env (D : Type 0) : Type 0 where
  pub point : ℕ → ℕ → ℕ
  pub key_point : Key → ℕ
  pub io : FileOps D
  pub send : ℕ → Key → Bytes → Bool
  pub fetch : ℕ → Key → Option Bytes

infixl 5 ◌>>=◌
abbrev pub ◌>>=◌ : {A B : Type 0} → Option A → (A → Option B) → Option B
none >>= f = none
some a >>= f = f a

module _ {D : Type 0} (env : Env D) where
  abbrev pub owners_of : Key → P2PStore D → Option (List ℕ)
  owners_of key s = Ring.get_nodes env.point env.key_point key s.replication s.ring

  unfoldable pub remote_put : ℕ → Key → Bytes → P2PStore D → Bool
  remote_put target key content s =
      if s.simulation then true else elim (lookup target s.peer_addrs) [
        | none ↦ false
        | some addr ↦ env.send addr key content
      ]

  unfoldable pub remote_get : ℕ → Key → P2PStore D → Option Bytes
  remote_get target key s =
      if s.simulation
      then none
      else elim (lookup target s.peer_addrs) [ none ↦ none | some addr ↦ env.fetch addr key ]

  -- The body of the loop of `put`, for one owner.
  unfoldable pub put_on : ℕ → Key → Bytes → ℕ → P2PStore D × List ℕ → P2PStore D × List ℕ
  unfolding remote_put
  put_on owner key content now (s, stored_on) =
      if owner == s.rank || s.simulation
      then (
        record s {
          local_store = Tier.put env.io key content now s.local_store;
          puts_local = s.puts_local + 1;
        },
        stored_on ++ s.rank ∷ [],
      )
      else if remote_put owner key content s
      then (record s { puts_remote = s.puts_remote + 1 }, stored_on ++ owner ∷ [])
      else (s, stored_on)

  unfoldable pub put_all : List ℕ → Key → Bytes → ℕ → P2PStore D × List ℕ → P2PStore D × List ℕ
  unfolding put_on
  put_all [] key content now acc = acc
  put_all (owner ∷ owners) key content now acc =
      put_all owners key content now (put_on owner key content now acc)

  unfoldable pub put : Key → Bytes → ℕ → P2PStore D → Option (P2PStore D × List ℕ)
  unfolding put_all
  put key content now s = do owners ← owners_of key s; some (put_all owners key content now (s, []))

  -- The loop of `get`, with its early returns, and the miss behind it.
  unfoldable pub get_from : List ℕ → Key → ℕ → P2PStore D → P2PStore D × Option Bytes
  unfolding remote_get
  get_from [] key now s = (record s { gets_miss = s.gets_miss + 1 }, none)
  get_from (owner ∷ owners) key now s =
      let (l, found) = Tier.get env.io key now s.local_store in
      let s' : P2PStore D = record s { local_store = l } in
      elim (owner == s.rank || s.simulation) [
        | true ↦ elim found [
          | some content ↦ (record s' { gets_local = s.gets_local + 1 }, some content)
          | none ↦ get_from owners key now s'
        ]
        | false ↦ elim (remote_get owner key s) [
          | some content ↦ (record s { gets_remote = s.gets_remote + 1 }, some content)
          | none ↦ get_from owners key now s
        ]
      ]

  unfoldable pub get : Key → ℕ → P2PStore D → Option (P2PStore D × Option Bytes)
  unfolding get_from
  get key now s = do owners ← owners_of key s; some (get_from owners key now s)

  -- `producer` is the data that it returns.
  unfoldable pub get_or_put : Key → Bytes → ℕ → P2PStore D → Option (P2PStore D × Bytes)
  unfolding get put
  get_or_put key produced now s = do
    (s', found) ← get key now s
    elim found [
      | some content ↦ some (s', content)
      | none ↦ do (t, _) ← put key produced now s'; some (t, produced)
    ]

  -- `evict`: the DRAM entry alone, and not its account.
  unfoldable pub evict : Key → P2PStore D → Option (P2PStore D)
  evict key s = do
    owners ← owners_of key s
    some (
        if elem s.rank owners || s.simulation
        then record s {
          local_store = record (s.local_store) { dram = erase key s.local_store.dram };
        }
        else s)
