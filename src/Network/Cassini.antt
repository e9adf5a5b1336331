-- ===== src/Network/Cassini.antt =====
-- `CassiniHWCounters` of tempo/network_monitor.py. What the counters of a NIC read is an argument of
-- the poll, as an option: sysfs or the C library may answer nothing.
use working_tempo.Base.{
  ℕ, ◌+◌, ◌-◌, Bool, false, not, ◌&&◌, Option, none, some, List, [], ◌∷◌, if◌then◌else◌, leb,
}

-- `_CASSINI_COUNTERS`, for the values and for what is read.
pub record Counters : Type 0 where
  pub congestion_flits : ℕ
  pub reliability_retx : ℕ
  pub tx_stall_ns : ℕ
  pub hwmark_pct : ℕ

pub record Reading : Type 0 where
  pub congestion_flits : Option ℕ
  pub reliability_retx : Option ℕ
  pub tx_stall_ns : Option ℕ
  pub hwmark_pct : Option ℕ

-- A NIC with its entries of `_prev` and `_delta`.
pub record Device : Type 0 where
  pub prev : Counters
  pub delta : Counters

pub record HwCounters : Type 0 where
  pub congestion_threshold : ℕ
  pub devices : List Device
  pub congested : Bool
  pub total_congestion_events : ℕ
  pub total_retx : ℕ
  pub total_stall_ns : ℕ

abbrev pub no_counts : Counters
no_counts = record { congestion_flits = 0; reliability_retx = 0; tx_stall_ns = 0; hwmark_pct = 0 }

abbrev pub new_devices : ℕ → List Device
new_devices Prim.Native.Nat.zero = []
new_devices (Prim.Native.Nat.suc n) = record { prev = no_counts; delta = no_counts } ∷ new_devices n

-- `CassiniHWCounters(n_nics, ..., congestion_threshold)`
abbrev pub new_counters : ℕ → ℕ → HwCounters
new_counters n_nics threshold = record {
  congestion_threshold = threshold;
  devices = new_devices n_nics;
  congested = false;
  total_congestion_events = 0;
  total_retx = 0;
  total_stall_ns = 0;
}

-- A counter that cannot be read keeps its value.
abbrev pub or_prev : Option ℕ → ℕ → ℕ
or_prev none prev = prev
or_prev (some value) prev = value

unfoldable pub read_nic_counters : Reading → Device → Counters
read_nic_counters r d = record {
  congestion_flits = or_prev r.congestion_flits d.prev.congestion_flits;
  reliability_retx = or_prev r.reliability_retx d.prev.reliability_retx;
  tx_stall_ns = or_prev r.tx_stall_ns d.prev.tx_stall_ns;
  hwmark_pct = or_prev r.hwmark_pct d.prev.hwmark_pct;
}

-- `max(0, current - previous)` of each counter.
unfoldable pub deltas : Counters → Counters → Counters
deltas curr prev = record {
  congestion_flits = curr.congestion_flits - prev.congestion_flits;
  reliability_retx = curr.reliability_retx - prev.reliability_retx;
  tx_stall_ns = curr.tx_stall_ns - prev.tx_stall_ns;
  hwmark_pct = curr.hwmark_pct - prev.hwmark_pct;
}

unfoldable pub advance : Reading → Device → Device
unfolding read_nic_counters deltas
advance r d = let curr = read_nic_counters r d in record { prev = curr; delta = deltas curr d.prev }

-- Each NIC with its reading; one that has no reading answers nothing.
abbrev pub no_reading : Reading
no_reading = record {
  congestion_flits = none;
  reliability_retx = none;
  tx_stall_ns = none;
  hwmark_pct = none;
}

unfoldable pub advance_all : List Reading → List Device → List Device
unfolding advance
advance_all rs [] = []
advance_all [] (d ∷ ds) = advance no_reading d ∷ advance_all [] ds
advance_all (r ∷ rs) (d ∷ ds) = advance r d ∷ advance_all rs ds

-- The sums over the NICs of what came in the last interval.
abbrev pub flits : List Device → ℕ
flits [] = 0
flits (d ∷ ds) = d.delta.congestion_flits + flits ds

abbrev pub retransmits : List Device → ℕ
retransmits [] = 0
retransmits (d ∷ ds) = d.delta.reliability_retx + retransmits ds

abbrev pub stalls : List Device → ℕ
stalls [] = 0
stalls (d ∷ ds) = d.delta.tx_stall_ns + stalls ds

-- The start of `_poll_loop`: what the counters read becomes the previous values.
abbrev pub primed : List Reading → List Device → List Device
primed rs [] = []
primed [] (d ∷ ds) = record d { prev = read_nic_counters no_reading d } ∷ primed [] ds
primed (r ∷ rs) (d ∷ ds) = record d { prev = read_nic_counters r d } ∷ primed rs ds

unfoldable pub prime : List Reading → HwCounters → HwCounters
unfolding read_nic_counters
prime rs h = record h { devices = primed rs h.devices }

-- A round of `_poll_loop`.
unfoldable pub poll : List Reading → HwCounters → HwCounters
unfolding advance_all
poll rs h =
    let devices = advance_all rs h.devices in
    let now_congested = leb h.congestion_threshold (flits devices) in
    record h {
      devices = devices;
      congested = now_congested;
      total_congestion_events =
          h.total_congestion_events + (if now_congested && not h.congested then 1 else 0);
      total_retx = h.total_retx + retransmits devices;
      total_stall_ns = h.total_stall_ns + stalls devices;
    }

abbrev pub is_fabric_congested : HwCounters → Bool
is_fabric_congested h = h.congested
