-- ===== src/Absorber/Order.antt =====
-- The order of the writes of `_SoftAbsorber` (tempo/lmcache_connector.py), and its bucket.
use working_tempo.Base.{
  ℕ, ◌+◌, ◌*◌, ◌≤◌, ◌≡◌, refl, sym, ap, ◌∙◌, Bool, not, ◌&&◌, List, [], ◌∷◌, ◌++◌, arith, ltb,
  either,
}
use mathlib.Core.List.{append_assoc, append-nil}
use working_tempo.Absorber.{
  SoftAbsorber, new_absorber, refilled, absorb, flush, flush_round, shutdown,
}

module _ {Key Tensor Store : Type 0} (nbytes : Tensor → ℕ)
    (put_in : Key → Tensor → Store → Store) where
  pub data Event : Type 0 where
    absorbs : Key → Tensor → Event
    rounds : Bool → ℕ → ℕ → Event
    stops : Event

  abbrev State : Type 0
  State = SoftAbsorber Key Tensor Store

  unfoldable pub run : List Event → State → State
  run [] a = a
  run (absorbs key tensor ∷ events) a = run events (absorb key tensor a)
  run (rounds inside now awake ∷ events) a =
      run events (flush_round nbytes put_in a.queue inside now awake a)
  run (stops ∷ events) a = run events (shutdown a)

  -- The tensors of a list of events, in their order, and their puts one after the other.
  abbrev pub absorbed : List Event → List (Key × Tensor)
  absorbed [] = []
  absorbed (absorbs key tensor ∷ events) = (key, tensor) ∷ absorbed events
  absorbed (rounds inside now awake ∷ events) = absorbed events
  absorbed (stops ∷ events) = absorbed events

  abbrev pub put_all : List (Key × Tensor) → Store → Store
  put_all [] store = store
  put_all ((key, tensor) ∷ puts) store = put_all puts (put_in key tensor store)

  put_all-append :
      (xs ys : List (Key × Tensor)) (store : Store)
      → put_all (xs ++ ys) store ≡ put_all ys (put_all xs store)
  put_all-append [] ys store = refl
  put_all-append ((key, tensor) ∷ xs) ys store = put_all-append xs ys (put_in key tensor store)

  IsFilled : State → Type 0
  IsFilled a = a.credit ≤ a.burst_b * 1000000 + a.debit

  flush-IsFilled :
      (key : Key) (tensor : Tensor) (now awake : ℕ) (a : State)
      → IsFilled (flush nbytes put_in key tensor now awake a)
  unfolding flush IsFilled
  flush-IsFilled key tensor now awake a = ground arith

  -- What the store is once the queue has been written, and `more` behind it.
  abbrev settled : List (Key × Tensor) → State → Store
  settled more a = put_all (a.queue ++ more) a.backing

  flush-settled :
      (key : Key) (tensor : Tensor) (now awake : ℕ) (more : List (Key × Tensor)) (a : State)
      → settled more (flush nbytes put_in key tensor now awake a)
        ≡ put_all (a.queue ++ more) (put_in key tensor a.backing)
  unfolding flush
  flush-settled key tensor now awake more a =
      either
        (λ (w : State).
          put_all (w.queue ++ more) (put_in key tensor w.backing)
          ≡ put_all (a.queue ++ more) (put_in key tensor a.backing))
        (ltb (refilled now a.last_t a) (nbytes tensor * 1000000 + a.debit)) refl refl

  flush_round_lem :
      (inside : Bool) (now awake : ℕ) (more queue : List (Key × Tensor)) (a : State)
      → a.queue ≡ queue
      → IsFilled a
      → IsFilled (flush_round nbytes put_in queue inside now awake a)
        × (settled more (flush_round nbytes put_in queue inside now awake a) ≡ settled more a)
  unfolding flush_round IsFilled
  flush_round_lem inside now awake more [] a same filled = (filled, refl)
  flush_round_lem inside now awake more ((key, tensor) ∷ queue) a same filled =
      either
        (λ (w : State).
          (w.credit ≤ w.burst_b * 1000000 + w.debit) × (settled more w ≡ settled more a))
        (a.stop && not inside) (filled, refl)
        (
          flush-IsFilled key tensor now awake (record a { queue = queue }),
          flush-settled key tensor now awake more (record a { queue = queue })
              ∙ ap (λ (q : List (Key × Tensor)). put_all (q ++ more) a.backing) (sym same),
        )

  abbrev pub IsSettled : List Event → State → Type 0
  IsSettled events a =
      ((run events a).credit ≤ (run events a).burst_b * 1000000 + (run events a).debit)
      × (put_all (run events a).queue (run events a).backing ≡ settled (absorbed events) a)

  run-IsSettled : (events : List Event) (a : State) → IsFilled a → IsSettled events a
  unfolding run IsFilled absorb shutdown
  run-IsSettled [] a filled =
      (filled, ap (λ (q : List (Key × Tensor)). put_all q a.backing) (sym (append-nil a.queue)))
  run-IsSettled (absorbs key tensor ∷ events) a filled =
      let (le, same) = run-IsSettled events (absorb key tensor a) filled in
      (
        le,
        same
            ∙ ap (λ (q : List (Key × Tensor)). put_all q a.backing)
                (append_assoc a.queue ((key, tensor) ∷ []) (absorbed events)),
      )
  run-IsSettled (rounds inside now awake ∷ events) a filled =
      let (still, kept) =
        flush_round_lem inside now awake (absorbed events) a.queue a refl filled in
      let (le, same) =
        run-IsSettled events (flush_round nbytes put_in a.queue inside now awake a) still in
      (le, same ∙ kept)
  run-IsSettled (stops ∷ events) a filled = run-IsSettled events (shutdown a) filled

  -- However tensors are put and the worker goes round from the start, stopped or not, the level of the
  -- bucket is never over the burst, and the store, once what the queue still holds is written to it, is
  -- what the puts of all the tensors in the order of their arrival make of it.
  pub run-new_absorber :
      (rate burst now : ℕ) (store : Store) (events : List Event)
      → IsSettled events (new_absorber rate burst now store)
  unfolding IsFilled
  run-new_absorber rate burst now store events =
      run-IsSettled events (new_absorber rate burst now store) (omega arith)
