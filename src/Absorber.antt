-- ===== src/Absorber.antt =====
-- tempo/lmcache_connector.py: `_SoftAbsorber`, its flush thread in rounds, and the calls of
-- `TEMPOStorageBackend` that it serves. The backing store is an argument with its puts; keys and
-- tensors are of any type. Times are microseconds of a clock that does not go back, sizes bytes, and
-- the bucket's level is `credit - debit` millionths of a byte, so that a negative level is exact.
pub mod Order
mod Tests
use working_tempo.Base.{
  ℕ, ◌+◌, ◌-◌, ◌*◌, min, Bool, true, false, not, ◌&&◌, List, [], ◌∷◌, ◌++◌, if◌then◌else◌, ltb,
}

pub record SoftAbsorber (Key Tensor Store : Type 0) : Type 0 where
  -- Bytes per second, and bytes.
  pub rate_bps : ℕ
  pub burst_b : ℕ
  pub queue : List (Key × Tensor)
  pub stop : Bool
  pub credit : ℕ
  pub debit : ℕ
  pub last_t : ℕ
  pub backing : Store

module _ {Key Tensor Store : Type 0} where
  -- `_SoftAbsorber(backing, cfg)`, whose thread reads the clock as it starts.
  abbrev pub new_absorber : ℕ → ℕ → ℕ → Store → SoftAbsorber Key Tensor Store
  new_absorber rate_bps burst_b now backing = record {
    rate_bps = rate_bps;
    burst_b = burst_b;
    queue = [];
    stop = false;
    credit = burst_b * 1000000;
    debit = 0;
    last_t = now;
    backing = backing;
  }

  -- `absorb`, and so `put` of the backend without the native library.
  unfoldable pub absorb :
      Key → Tensor → SoftAbsorber Key Tensor Store → SoftAbsorber Key Tensor Store
  absorb key tensor a = record a { queue = a.queue ++ (key, tensor) ∷ [] }

  -- `min(tokens + (now - last_t) * rate_bps, burst_b)`
  abbrev pub refilled : ℕ → ℕ → SoftAbsorber Key Tensor Store → ℕ
  refilled now last_t a =
      min (a.credit + (now - last_t) * a.rate_bps) (a.burst_b * 1000000 + a.debit)

  -- `shutdown`, up to the join of the thread.
  unfoldable pub shutdown : SoftAbsorber Key Tensor Store → SoftAbsorber Key Tensor Store
  shutdown a = record a { stop = true }

module _ {Key Tensor Store : Type 0} (nbytes : Tensor → ℕ)
    (put_in : Key → Tensor → Store → Store) where
  -- What is done with an entry that is taken from the queue at `now`. `awake` is the time behind the
  -- sleep for the bucket, which `last_t` does not record.
  unfoldable pub flush :
      Key → Tensor → ℕ → ℕ → SoftAbsorber Key Tensor Store → SoftAbsorber Key Tensor Store
  flush key tensor now awake a =
      let filled : SoftAbsorber Key Tensor Store = record a {
        credit = refilled now a.last_t a;
        last_t = now;
      } in
      let size = nbytes tensor in
      let waited : SoftAbsorber Key Tensor Store =
        if ltb filled.credit (size * 1000000 + filled.debit)
        then record filled { credit = refilled awake now filled }
        else filled in
      record waited {
        debit = waited.debit + size * 1000000;
        backing = put_in key tensor waited.backing;
      }

  -- A round of `_flush_worker`. `inside` says that a worker that finds the stop event set had passed its
  -- first test before: it waits for an entry, and takes the one that it finds.
  unfoldable pub flush_round :
      List (Key × Tensor)
      → Bool
      → ℕ
      → ℕ
      → SoftAbsorber Key Tensor Store
      → SoftAbsorber Key Tensor Store
  unfolding flush
  flush_round [] inside now awake a = a
  flush_round ((key, tensor) ∷ queue) inside now awake a =
      if a.stop && not inside then a else flush key tensor now awake (record a { queue = queue })
