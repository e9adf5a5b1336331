-- ===== src/Qos.antt =====
-- `TC`, `TrafficClass` and `QoSMapper` of tempo/qos_mapper.py. A gain and an urgency are the exact
-- fractions that their floats stand for; what the system answers to a socket option is an argument.
pub mod Fabric
pub mod Classes
pub mod Endpoint
mod Tests
use working_tempo.Base.{ℕ, ◌+◌, ◌*◌, Bool, true, false, not, ◌&&◌, if◌then◌else◌, List, [], ◌∷◌}
use working_tempo.Base.Frac
use working_tempo.Base.Frac.{Frac, frac, whole, le_frac, min_frac}

pub data Tc : Type 0 where
  background storage bulk latency : Tc

-- The value of a member of the `IntEnum`.
abbrev pub tc_value : Tc → ℕ
tc_value background = 0
tc_value storage = 1
tc_value bulk = 2
tc_value latency = 3

-- `_TC_DSCP` and `_TC_SO_PRIO`
abbrev pub tc_dscp : Tc → ℕ
tc_dscp background = 0
tc_dscp storage = 18
tc_dscp bulk = 34
tc_dscp latency = 46

abbrev pub tc_so_prio : Tc → ℕ
tc_so_prio background = 0
tc_so_prio storage = 2
tc_so_prio bulk = 4
tc_so_prio latency = 6

pub record TrafficClass : Type 0 where
  pub tc : Tc
  pub dscp : ℕ
  pub tos_byte : ℕ
  pub so_prio : ℕ

-- `dscp << 2`
unfoldable pub build_tc : Tc → TrafficClass
build_tc tc = record {
  tc = tc;
  dscp = tc_dscp tc;
  tos_byte = tc_dscp tc * 4;
  so_prio = tc_so_prio tc;
}

-- The texts of `traffic_type` that are told apart.
pub data TrafficType : Type 0 where
  nccl bg_io other : TrafficType

-- `_counters` and `_bytes`: a number for each class.
pub record PerClass : Type 0 where
  pub of_background : ℕ
  pub of_storage : ℕ
  pub of_bulk : ℕ
  pub of_latency : ℕ

unfoldable pub bump : Tc → ℕ → PerClass → PerClass
bump background n c = record c { of_background = c.of_background + n }
bump storage n c = record c { of_storage = c.of_storage + n }
bump bulk n c = record c { of_bulk = c.of_bulk + n }
bump latency n c = record c { of_latency = c.of_latency + n }

abbrev pub total : PerClass → ℕ
total c = c.of_background + c.of_storage + c.of_bulk + c.of_latency

pub record QosMapper : Type 0 where
  pub enabled : Bool
  pub dry_run : Bool
  pub tos_ok : Bool
  pub counters : PerClass
  pub bytes : PerClass
  pub applied : ℕ

abbrev zeros : PerClass
zeros = record { of_background = 0; of_storage = 0; of_bulk = 0; of_latency = 0 }

-- `__init__`; `probe` is what `_probe_tos` answers.
abbrev pub new_mapper : Bool → Bool → Bool → QosMapper
new_mapper enabled dry_run probe = record {
  enabled = enabled;
  dry_run = dry_run;
  tos_ok = enabled && not dry_run && probe;
  counters = zeros;
  bytes = zeros;
  applied = 0;
}

-- `min(1.0, gain + 0.08 * urgency)`
unfoldable pub effective_gain : Frac → Frac → Frac
effective_gain gain urgency = min_frac (whole 1) (Frac.add gain (Frac.mul (frac 8 100) urgency))

-- `GAIN_TC3`, `GAIN_TC2` and `GAIN_TC1`
unfoldable pub tc_of_gain : Frac → Tc
tc_of_gain eff =
    if le_frac (frac 70 100) eff
    then latency
    else if le_frac (frac 40 100) eff
    then bulk
    else if le_frac (frac 15 100) eff
    then storage
    else background

unfoldable pub tc_of : TrafficType → Frac → Frac → Tc
unfolding effective_gain tc_of_gain
tc_of nccl gain urgency = latency
tc_of bg_io gain urgency = background
tc_of other gain urgency = tc_of_gain (effective_gain gain urgency)

unfoldable pub classify : Frac → TrafficType → Frac → ℕ → QosMapper → QosMapper × TrafficClass
unfolding tc_of bump build_tc
classify gain traffic_type urgency size_bytes m =
    if not m.enabled
    then (m, build_tc background)
    else let tc = tc_of traffic_type gain urgency in
      (
        record m { counters = bump tc 1 m.counters; bytes = bump tc size_bytes m.bytes },
        build_tc tc,
      )

-- `apply_to_socket`: the answers to IP_TOS and SO_PRIORITY, of which the second is not used. The
-- options that the socket is sent are the list.
unfoldable pub apply_to_socket : Bool → TrafficClass → QosMapper → QosMapper × Bool × List ℕ
apply_to_socket tos_set tc m =
    if not m.enabled
    then (m, false, [])
    else if m.dry_run
    then (record m { applied = m.applied + 1 }, true, [])
    else if not m.tos_ok
    then (m, false, [])
    else (
      if tos_set then record m { applied = m.applied + 1 } else m,
      tos_set,
      tc.tos_byte ∷ tc.so_prio ∷ [],
    )

-- `apply_fd_priority`; `nice` is whether `os.setpriority` succeeds.
unfoldable pub apply_fd_priority : Bool → Frac → Frac → QosMapper → QosMapper × Bool
unfolding classify
apply_fd_priority nice gain urgency m =
    if not m.enabled
    then (m, false)
    else let (m', c) = classify gain other urgency 0 m in
      elim c.tc [
        | background ↦ (m', nice)
        | storage ↦ (m', false)
        | bulk ↦ (m', false)
        | latency ↦ (m', false)
      ]
