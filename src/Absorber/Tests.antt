-- ===== src/Absorber/Tests.antt =====
-- Tests of `_SoftAbsorber` (tempo/lmcache_connector.py), and the theorem at a concrete run. A tensor is
-- its size, and the store lists its puts, the last one first.
use working_tempo.Base.{ℕ, ◌≡◌, refl, false, List, [], ◌∷◌}
use working_tempo.Absorber.{SoftAbsorber, new_absorber, absorb, flush, flush_round, shutdown}
use working_tempo.Absorber.Order.{Event, absorbs, rounds, stops, run, IsSettled, run-new_absorber}

abbrev size_of : ℕ → ℕ
size_of tensor = tensor

abbrev push : ℕ → ℕ → List (ℕ × ℕ) → List (ℕ × ℕ)
push key tensor store = (key, tensor) ∷ store

-- Three tensors, of which the worker is stopped before it takes the last.
abbrev events : List (Event size_of push)
events =
    absorbs 1 100
    ∷ absorbs 2 250
    ∷ rounds false 10 10
    ∷ absorbs 3 50
    ∷ rounds false 20 270
    ∷ stops
    ∷ rounds false 300 300
    ∷ []

abbrev start : SoftAbsorber ℕ ℕ (List (ℕ × ℕ))
start = new_absorber 1000000 200 0 []

run-new_absorber_example : IsSettled size_of push events start
run-new_absorber_example = run-new_absorber size_of push 1000000 200 0 [] events

-- The last tensor is never written.
left_behind : (run size_of push events start).queue ≡ (3, 50) ∷ []
unfolding run absorb flush_round flush shutdown
left_behind = refl

written : (run size_of push events start).backing ≡ (2, 250) ∷ (1, 100) ∷ []
unfolding run absorb flush_round flush shutdown
written = refl
