-- ===== src/Network.antt =====
-- `NetworkMonitor` of tempo/network_monitor.py. A NIC is a number, and what sysfs answers is an
-- argument of the poll. Times are in microseconds, and rates are exact fractions, in bytes per
-- second.
pub mod Congestion
pub mod Rails
pub mod Choice
pub mod Cassini
pub mod Retransmits
pub mod Deferral
mod Tests
use working_tempo.Base.{
  ℕ, ◌+◌, ◌-◌, ◌*◌, Bool, true, false, not, ◌&&◌, Option, none, some, List, [], ◌∷◌, ◌++◌, map,
  foldl, ◌==◌, if◌then◌else◌, ltb, leb, length, drop,
}
use working_tempo.Base.Frac
use working_tempo.Base.Frac.{Frac, frac, whole, lt_frac, le_frac, max_frac}

-- `_LINK_SPEED_BPS`, in bits per second
abbrev pub link_speed : Frac
link_speed = whole 200000000000

abbrev pub congestion_thresh : Frac
congestion_thresh = frac 75 100

abbrev pub window_size : ℕ
window_size = 64

pub record NicSample : Type 0 where
  pub ts : ℕ
  pub tx : ℕ
  pub rx : ℕ

-- An entry of `_nic_state`.
pub record Nic : Type 0 where
  pub name : ℕ
  pub last : Option NicSample
  pub ema : Frac
  pub window : List Frac

pub record NetworkMonitor : Type 0 where
  pub congestion_threshold : Frac
  pub link_speed_bps : Frac
  pub nics : List Nic
  pub total_bps_ema : Frac
  pub total_bps_peak : Frac
  pub io_allowed : Bool
  pub poll_count : ℕ
  pub congestion_events : ℕ
  pub total_congestion : ℕ
  pub peak_bps : Frac
  pub congestion_start : Option ℕ
  pub sim_bps : Frac
  pub stopped : Bool

abbrev pub new_nic : ℕ → Nic
new_nic name = record { name = name; last = none; ema = whole 0; window = [] }

-- `NetworkMonitor(threshold, ..., link)` where these NICs are discovered.
abbrev pub new_monitor : Frac → Frac → List ℕ → NetworkMonitor
new_monitor threshold link names = record {
  congestion_threshold = threshold;
  link_speed_bps = link;
  nics = map new_nic names;
  total_bps_ema = whole 0;
  total_bps_peak = whole 0;
  io_allowed = true;
  poll_count = 0;
  congestion_events = 0;
  total_congestion = 0;
  peak_bps = whole 0;
  congestion_start = none;
  sim_bps = whole 0;
  stopped = false;
}

-- `self._simulated`: there are no NICs.
abbrev pub simulated : NetworkMonitor → Bool
simulated m = leb (length m.nics) 0

abbrev pub is_congested : NetworkMonitor → Bool
is_congested m = not m.io_allowed

-- `(bps * 8.0) / self.link_speed_bps`
abbrev pub util_of : NetworkMonitor → Frac → Frac
util_of m bps = Frac.div (Frac.mul bps (whole 8)) m.link_speed_bps

unfoldable pub current_util_fraction : NetworkMonitor → Frac
current_util_fraction m = util_of m (if simulated m then m.sim_bps else m.total_bps_ema)

-- `_EMA_ALPHA * new + (1 - _EMA_ALPHA) * old`
abbrev pub blend : Frac → Frac → Frac
blend new old = Frac.add (Frac.mul (frac 25 100) new) (Frac.mul (frac 75 100) old)

-- `max((total - before) / dt, 0.0)` over the microseconds `dt`.
abbrev pub inst_bps : ℕ → ℕ → ℕ → Frac
inst_bps total before dt = frac ((total - before) * 1000000) dt

unfoldable pub next_ema : ℕ → ℕ → Nic → Frac
next_ema now total nic = elim nic.last [
  | none ↦ whole 0
  | some sample ↦
      if ltb (now - sample.ts) 1
      then nic.ema
      else blend (inst_bps total (sample.tx + sample.rx) (now - sample.ts)) nic.ema
]

-- `append` to a deque of at most 64 entries.
unfoldable pub push_window : Frac → List Frac → List Frac
push_window e window =
    let longer = window ++ e ∷ [] in
    if ltb window_size (length longer) then drop 1 longer else longer

-- `_poll_one_nic`, with what the counters read: the NIC behind it, and its rate.
unfoldable pub poll_one_nic : ℕ → Option (ℕ × ℕ) → Nic → Nic × Frac
unfolding next_ema push_window
poll_one_nic now none nic = (nic, whole 0)
poll_one_nic now (some (tx, rx)) nic =
    let ema = next_ema now (tx + rx) nic in
    (
      record nic {
        last = some (record { ts = now; tx = tx; rx = rx });
        ema = ema;
        window = push_window ema nic.window;
      },
      ema,
    )

-- In bytes per second.
abbrev pub threshold_bps : NetworkMonitor → Frac
threshold_bps m = Frac.div (Frac.mul m.link_speed_bps m.congestion_threshold) (whole 8)

unfoldable pub open_gate : ℕ → NetworkMonitor → NetworkMonitor
open_gate now m = elim m.congestion_start [
  | none ↦ record m { io_allowed = true }
  | some start ↦
      -- `if self._congestion_start:` is not taken for a start at 0.0.
      if start == 0 then record m { io_allowed = true } else record m {
        io_allowed = true;
        total_congestion = m.total_congestion + (now - start);
        congestion_start = none;
      }
]

abbrev pub shut_gate : ℕ → NetworkMonitor → NetworkMonitor
shut_gate now m = record m {
  io_allowed = false;
  congestion_start = some now;
  congestion_events = m.congestion_events + 1;
}

unfoldable pub move_gate : ℕ → Bool → NetworkMonitor → NetworkMonitor
unfolding open_gate
move_gate now congested m =
    if congested && m.io_allowed
    then shut_gate now m
    else if not congested && not m.io_allowed
    then open_gate now m
    else m

unfoldable pub update_congestion_state : ℕ → Frac → NetworkMonitor → NetworkMonitor
unfolding move_gate
update_congestion_state now total m =
    let moved = move_gate now (le_frac (threshold_bps m) total) m in
    record moved { peak_bps = if lt_frac moved.peak_bps total then total else moved.peak_bps }

unfoldable pub set_simulated_bps : ℕ → Frac → NetworkMonitor → NetworkMonitor
unfolding update_congestion_state
set_simulated_bps now bps m = update_congestion_state now bps (record m { sim_bps = bps })

-- `stop`, and `start` of the thread. `stop` also lets a waiting caller go.
unfoldable pub stop : NetworkMonitor → NetworkMonitor
stop m = record m { stopped = true; io_allowed = true }

unfoldable pub start : NetworkMonitor → NetworkMonitor
start m = record m { stopped = false }

-- The average and the peak of the total.
unfoldable pub average : Frac → NetworkMonitor → NetworkMonitor
average total m = record m {
  total_bps_ema = blend total m.total_bps_ema;
  total_bps_peak = if lt_frac m.total_bps_peak total then total else m.total_bps_peak;
}

module _ (read : ℕ → Option (ℕ × ℕ)) where
  -- Every NIC in its order, with the sum of their rates.
  unfoldable pub poll_nics : ℕ → List Nic → List Nic × Frac
  unfolding poll_one_nic
  poll_nics now [] = ([], whole 0)
  poll_nics now (nic ∷ nics) =
      let (nic', bps) = poll_one_nic now (read nic.name) nic in
      let (nics', total) = poll_nics now nics in (nic' ∷ nics', Frac.add bps total)

  unfoldable pub read_total : ℕ → NetworkMonitor → NetworkMonitor × Frac
  unfolding poll_nics
  read_total now m =
      if simulated m
      then (m, m.sim_bps)
      else let (nics, total) = poll_nics now m.nics in (record m { nics = nics }, total)

  abbrev pub counted_total : ℕ → NetworkMonitor → NetworkMonitor
  counted_total now m =
      let (counted, total) = read_total now (record m { poll_count = m.poll_count + 1 }) in
      average total counted

  -- A round of `_poll_loop`; none once it is stopped.
  unfoldable pub poll : ℕ → NetworkMonitor → NetworkMonitor
  unfolding read_total average update_congestion_state
  poll now m =
      if m.stopped
      then m
      else let averaged = counted_total now m in
        update_congestion_state now averaged.total_bps_ema averaged
