-- ===== src/Network/Retransmits.antt =====
-- The totals of `CassiniHWCounters` (tempo/network_monitor.py) against the counters themselves.
use working_tempo.Base.{ℕ, ◌+◌, ◌≤◌, ◌≡◌, refl, List, [], ◌∷◌, arith}
use working_tempo.Network.Cassini.{
  Reading, Device, HwCounters, or_prev, read_nic_counters, deltas, advance, advance_all,
  retransmits, poll,
}

-- The sum over the NICs of a counter's last value.
abbrev pub latest_retx : List Device → ℕ
latest_retx [] = 0
latest_retx (d ∷ ds) = d.prev.reliability_retx + latest_retx ds

-- No counter runs back: each reading of the retransmits is at least the value before it.
abbrev pub Rises : List Reading → List Device → Type 0
Rises rs [] = Unit
Rises [] (d ∷ ds) = Unit
Rises (r ∷ rs) (d ∷ ds) =
    (d.prev.reliability_retx ≤ or_prev r.reliability_retx d.prev.reliability_retx) × Rises rs ds

retransmits-advance_none :
    (ds : List Device)
    → (latest_retx (advance_all [] ds) ≡ latest_retx ds) × (retransmits (advance_all [] ds) ≡ 0)
unfolding advance_all advance read_nic_counters deltas
retransmits-advance_none [] = (refl, refl)
retransmits-advance_none (d ∷ ds) =
    let rest = retransmits-advance_none ds in (omega (arith, rest.0), omega (arith, rest.1))

-- The deltas of a round cover the growth of the counters, and are no more where none runs back.
retransmits-advance_all :
    (rs : List Reading) (ds : List Device)
    → latest_retx (advance_all rs ds) ≤ latest_retx ds + retransmits (advance_all rs ds)
unfolding advance_all advance read_nic_counters deltas
retransmits-advance_all rs [] = omega arith
retransmits-advance_all [] (d ∷ ds) =
    let rest = retransmits-advance_none (d ∷ ds) in omega (arith, rest.0)
retransmits-advance_all (r ∷ rs) (d ∷ ds) = omega (arith, retransmits-advance_all rs ds)

abbrev pub poll_all : List (List Reading) → HwCounters → HwCounters
poll_all [] h = h
poll_all (rs ∷ rounds) h = poll_all rounds (poll rs h)

-- No counter runs back in any of the rounds.
abbrev pub AllRise : List (List Reading) → HwCounters → Type 0
AllRise [] h = Unit
AllRise (rs ∷ rounds) h = Rises rs h.devices × AllRise rounds (poll rs h)

-- Whatever the NICs answer, readings that fail included, the total of the retransmits grows by at
-- least as much as the counters do; a counter that is reset only makes it larger.
pub poll_all-covers :
    (rounds : List (List Reading)) (h : HwCounters)
    → let after = poll_all rounds h in
      latest_retx after.devices + h.total_retx ≤ latest_retx h.devices + after.total_retx
unfolding poll
poll_all-covers [] h = omega arith
poll_all-covers (rs ∷ rounds) h =
    omega (arith, poll_all-covers rounds (poll rs h), retransmits-advance_all rs h.devices)
