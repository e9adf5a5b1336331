-- ===== src/Scheduler/Placed.antt =====
-- `TEMPOSchedulerV3` of tempo/scheduler.py: the class and the placement of a checkpoint, before V2
-- decides on it.
use working_tempo.Base.{ℕ, Bool, true, false, Option, none, some, if◌then◌else◌}
use working_tempo.Base.Frac.{Frac, frac}
use working_tempo.Gain.{Libraries, FlushPriority}
use working_tempo.Interleave.{get_safe_window_ms}
use working_tempo.Qos.{other, classify}
use working_tempo.Topology.{TopologyRouter, PlacementTier, deferred, route_kv_placement}
use working_tempo.Scheduler.{Scheduler, Answer, no_path, raises}
use working_tempo.Scheduler.Staged.{Call, size_of, submit, checkpoint_v2}

-- `prio.gain`, or 0.5 without a scheduler of the gain. A `FlushPriority` has no `urgency`, so that is
-- 0.5 as well.
abbrev pub gain_of : Option FlushPriority → Frac
gain_of none = frac 5 10
gain_of (some priority) = priority.gain

abbrev pub default_urgency : Frac
default_urgency = frac 5 10

-- The traffic type "checkpoint" is none of those that are told apart.
unfoldable pub mark : Frac → Scheduler → Scheduler
unfolding classify
mark gain s = record s {
  qos_mapper = elim s.qos_mapper [
    | none ↦ none
    | some mapper ↦ some (classify gain other default_urgency 0 mapper).0
  ];
}

abbrev pub is_deferred : PlacementTier → Bool
is_deferred deferred = true
is_deferred _ = false

module _ (libs : Libraries) (sqrt : Frac → Frac) where
  unfoldable pub safe_window : ℕ → Scheduler → Option Frac
  unfolding get_safe_window_ms
  safe_window now s = elim s.interleaving [
    | none ↦ none
    | some engine ↦ some (get_safe_window_ms sqrt now engine)
  ]

  -- The placement, and whether it is deferred. `congested` is what the hardware counters of the
  -- router answer, if it has any.
  unfoldable pub place_by : Option TopologyRouter → Bool → Call → Scheduler → Scheduler × Bool
  unfolding safe_window route_kv_placement
  place_by none congested c s = (s, false)
  place_by (some router) congested c s =
      let (router', decision) =
        route_kv_placement (size_of c.meta) none (safe_window c.submitted_at s) congested router in
      (record s { topo_router = some router' }, is_deferred decision.tier)

  unfoldable pub place : Bool → Call → Scheduler → Scheduler × Bool
  unfolding place_by
  place congested c s = place_by s.topo_router congested c s

  -- An exception of V2 passes; any other answer is dropped.
  abbrev pub dropped : Answer → Answer
  dropped raises = raises
  dropped _ = no_path

  unfoldable pub checkpoint_v3 : Bool → Call → Scheduler → Scheduler × Answer
  unfolding submit mark place checkpoint_v2
  checkpoint_v3 congested c s =
      let (counted, priority) = submit libs sqrt c.step c.submitted_at s in
      let (placed, later) = place congested c (mark (gain_of priority) counted) in
      if later
      then (placed, no_path)
      else let (saved, answer) = checkpoint_v2 libs sqrt c placed in (saved, dropped answer)
