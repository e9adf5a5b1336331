-- ===== src/Network/Congestion.antt =====
-- The gate of `NetworkMonitor` (tempo/network_monitor.py) and the account of the congested time.
use working_tempo.Base.{
  ℕ, ◌+◌, ◌≤◌, ◌≡◌, subst, Bool, true, false, not, ◌&&◌, Option, none, some, List, [], ◌∷◌,
  if◌then◌else◌, either, arith,
}
use working_tempo.Base.Frac.{Frac, lt_frac, le_frac, LeFrac}
use working_tempo.Network.{
  NetworkMonitor, threshold_bps, open_gate, move_gate, update_congestion_state, set_simulated_bps,
  stop, start, read_total, average, counted_total, poll,
}

-- The time up to which the account is closed: the start of the congestion, while there is one.
abbrev pub closed_until : ℕ → NetworkMonitor → ℕ
closed_until now m =
    if m.io_allowed then now else elim m.congestion_start [ none ↦ now | some from ↦ from ]

pub record IsMeasured (origin now : ℕ) (m : NetworkMonitor) : Type 0 where
  pub spent : origin + m.total_congestion ≤ closed_until now m
  pub closed : closed_until now m ≤ now

open_gate-IsMeasured :
    (origin now later : ℕ) (m : NetworkMonitor)
    → now ≤ later
    → m.io_allowed ≡ false
    → IsMeasured origin now m
    → IsMeasured origin later (open_gate later m)
unfolding open_gate
open_gate-IsMeasured origin now later m le shut h = ground arith

later-IsMeasured :
    (origin now later : ℕ) (m : NetworkMonitor)
    → now ≤ later
    → IsMeasured origin now m
    → IsMeasured origin later m
later-IsMeasured origin now later m le h = ground arith

move_gate-IsMeasured :
    (origin now later : ℕ) (congested : Bool) (m : NetworkMonitor)
    → now ≤ later
    → IsMeasured origin now m
    → IsMeasured origin later (move_gate later congested m)
unfolding move_gate
move_gate-IsMeasured origin now later congested m le h =
    ground
      (arith, open_gate-IsMeasured origin now later m le, later-IsMeasured origin now later m le h)

move_gate_lem :
    (now : ℕ) (congested : Bool) (m : NetworkMonitor)
    → let after = move_gate now congested m in
      (after.io_allowed ≡ not congested)
      × (after.congestion_events
          ≡ m.congestion_events + (if congested && m.io_allowed then 1 else 0))
      × (after.peak_bps ≡ m.peak_bps)
unfolding move_gate open_gate
move_gate_lem now true m = ground arith
move_gate_lem now false m = ground arith

raise_peak :
    (total old : Frac)
    → let new = if lt_frac old total then total else old in LeFrac total new × LeFrac old new
raise_peak total old = ground arith

-- An update shuts the gate exactly where the rate has reached the threshold, counts a congestion
-- where the gate was open before, and keeps the peak above every rate.
pub update_congestion_state_lem :
    (now : ℕ) (total : Frac) (m : NetworkMonitor)
    → let after = update_congestion_state now total m in
      let congested = le_frac (threshold_bps m) total in
      (after.io_allowed ≡ not congested)
      × (after.congestion_events
          ≡ m.congestion_events + (if congested && m.io_allowed then 1 else 0))
      × LeFrac total after.peak_bps
      × LeFrac m.peak_bps after.peak_bps
unfolding update_congestion_state
update_congestion_state_lem now total m =
    let g = move_gate_lem now (le_frac (threshold_bps m) total) m in
    let moved = move_gate now (le_frac (threshold_bps m) total) m in
    let p = raise_peak total moved.peak_bps in
    (
      g.0,
      g.1,
      p.0,
      subst
          (λ (f : Frac). LeFrac f (if lt_frac moved.peak_bps total then total else moved.peak_bps))
          g.2 p.1,
    )

update-IsMeasured :
    (origin now later : ℕ) (total : Frac) (m : NetworkMonitor)
    → now ≤ later
    → IsMeasured origin now m
    → IsMeasured origin later (update_congestion_state later total m)
unfolding update_congestion_state
update-IsMeasured origin now later total m le h =
    let g = move_gate-IsMeasured origin now later (le_frac (threshold_bps m) total) m le h in
    record { spent = g.spent; closed = g.closed }

-- What the threads do, with the time of the clock.
pub data Event : Type 0 where
  polled : (ℕ → Option (ℕ × ℕ)) → Event
  simulated_at : Frac → Event
  stops starts : Event

abbrev pub apply : ℕ → Event → NetworkMonitor → NetworkMonitor
apply now (polled read) m = poll read now m
apply now (simulated_at bps) m = set_simulated_bps now bps m
apply now stops m = stop m
apply now starts m = start m

abbrev pub run : List (ℕ × Event) → NetworkMonitor → NetworkMonitor
run [] m = m
run ((now, e) ∷ events) m = run events (apply now e m)

abbrev pub IsMonotone : ℕ → List (ℕ × Event) → ℕ → Type 0
IsMonotone now [] last = now ≤ last
IsMonotone now ((at, _) ∷ events) last = (now ≤ at) × IsMonotone at events last

read_total-same :
    (read : ℕ → Option (ℕ × ℕ)) (now : ℕ) (m : NetworkMonitor)
    → let after = (read_total read now m).0 in
      (after.io_allowed ≡ m.io_allowed)
      × (after.total_congestion ≡ m.total_congestion)
      × (after.congestion_start ≡ m.congestion_start)
unfolding read_total
read_total-same read now m = ground arith

kept-IsMeasured :
    (origin now : ℕ) (m after : NetworkMonitor)
    → IsMeasured origin now m
    → (after.io_allowed ≡ m.io_allowed)
      × (after.total_congestion ≡ m.total_congestion)
      × (after.congestion_start ≡ m.congestion_start)
    → IsMeasured origin now after
kept-IsMeasured origin now m after h (gate, spent, from) = record {
  spent = rw (gate, spent, from) h.spent;
  closed = rw (gate, from) h.closed;
}

poll-IsMeasured :
    (read : ℕ → Option (ℕ × ℕ)) (origin now later : ℕ) (m : NetworkMonitor)
    → now ≤ later
    → IsMeasured origin now m
    → IsMeasured origin later (poll read later m)
unfolding poll average
poll-IsMeasured read origin now later m le h =
    let counted : NetworkMonitor = record m { poll_count = m.poll_count + 1 } in
    let same = read_total-same read later counted in
    let averaged = counted_total read later m in
    let kept = kept-IsMeasured origin now m averaged h same in
    either (λ x. IsMeasured origin later x) m.stopped (later-IsMeasured origin now later m le h)
      (update-IsMeasured origin now later averaged.total_bps_ema averaged le kept)

apply-IsMeasured :
    (origin now later : ℕ) (e : Event) (m : NetworkMonitor)
    → now ≤ later
    → IsMeasured origin now m
    → IsMeasured origin later (apply later e m)
unfolding set_simulated_bps stop start
apply-IsMeasured origin now later (polled read) m le h =
    poll-IsMeasured read origin now later m le h
apply-IsMeasured origin now later (simulated_at bps) m le h =
    let injected : NetworkMonitor = record m { sim_bps = bps } in
    update-IsMeasured origin now later bps injected le
      (record { spent = h.spent; closed = h.closed })
apply-IsMeasured origin now later stops m le h = ground (arith, h.spent, h.closed)
apply-IsMeasured origin now later starts m le h = ground (arith, h.spent, h.closed)

-- On a monotone clock the time that is counted as congested is never more than the time that has
-- passed, however polls, injected rates, stops and restarts follow one another.
pub run-IsMeasured :
    (origin now last : ℕ) (events : List (ℕ × Event)) (m : NetworkMonitor)
    → IsMeasured origin now m
    → IsMonotone now events last
    → IsMeasured origin last (run events m) × (origin + (run events m).total_congestion ≤ last)
run-IsMeasured origin now last [] m h le =
    let t = later-IsMeasured origin now last m le h in (t, omega (arith, t.spent, t.closed))
run-IsMeasured origin now last ((at, e) ∷ events) m h le =
    run-IsMeasured origin at last events (apply at e m) (apply-IsMeasured origin now at e m le.0 h)
      le.1
