-- ===== src/Scheduler/Placements.antt =====
-- What the placement of V3 does to a checkpoint (tempo/scheduler.py). V3 does not start its router, so
-- that hardware counters which it may have are never polled, and nothing sets its flag.
use working_tempo.Base.{
  ℕ, ◌+◌, ◌≡◌, ◌∙◌, ap, sym, subst, ◌⊎◌, inl, inr, refl, Bool, true, false, ◌||◌, ◌&&◌, Option,
  none, some, List, [], ◌∷◌, arith, false≢true, either, if◌then◌else◌,
}
use working_tempo.Base.Frac.{Frac}
use working_tempo.Checkpoint.{Saving, wrote, broke, save_async}
use working_tempo.Gain.{Libraries, GainScheduler, FlushPriority, submit_job}
use working_tempo.Topology.{
  TopologyRouter, PlacementDecision, decide, same_group, candidates, must_defer, route_kv_placement,
}
use working_tempo.Topology.Route.{route_kv_placement-Explains}
use working_tempo.Network.Cassini.{new_counters, is_fabric_congested}
use working_tempo.Scheduler.{Scheduler, is_tempo, Answer, local_path, no_path, or_raises}
use working_tempo.Scheduler.Staged.{Call, size_of, checkpoint_v2}
use working_tempo.Scheduler.Placed.{
  mark, gain_of, is_deferred, safe_window, place_by, place, dropped, checkpoint_v3,
}
use working_tempo.Scheduler.Jobs.{
  IsStaged, Counts, submitted, submit-some, checkpoint_v2-IsStaged, submit_job-counts,
}

-- A router whose flag is not set, with hardware counters or without.
pub record IsQuiet (r : TopologyRouter) : Type 0 where
  pub no_flag : r.global_link_saturated ≡ false

-- Counters that are not polled answer no congestion.
abbrev pub unpolled : ℕ → ℕ → Bool
unpolled n_nics threshold = is_fabric_congested (new_counters n_nics threshold)

and_false : (b : Bool) → (b && false) ≡ false
and_false true = refl
and_false false = refl

decide-IsQuiet :
    (size : ℕ) (group : List ℕ) (remaining : Option Frac) (hw : Bool) (r : TopologyRouter)
    → IsQuiet r
    → IsQuiet (decide size group remaining hw r).0
unfolding decide
decide-IsQuiet size (p ∷ ps) remaining hw r h = record { no_flag = h.no_flag }
decide-IsQuiet size [] remaining hw r h =
    either (λ (x : TopologyRouter × PlacementDecision). IsQuiet x.0)
      (must_defer (r.global_link_saturated || hw) remaining) (record { no_flag = h.no_flag }) h

route-IsQuiet :
    (size : ℕ) (remaining : Option Frac) (congested : Bool) (r : TopologyRouter)
    → IsQuiet r
    → IsQuiet (route_kv_placement size none remaining congested r).0
unfolding route_kv_placement
route-IsQuiet size remaining congested r h =
    decide-IsQuiet size (same_group r (candidates r none)) remaining
      (r.has_hw_counters && congested) (record r { total_decisions = r.total_decisions + 1 })
      (record { no_flag = h.no_flag })

route-not_deferred :
    (size : ℕ) (remaining : Option Frac) (r : TopologyRouter)
    → IsQuiet r
    → is_deferred (route_kv_placement size none remaining false r).1.tier ≡ false
route-not_deferred size remaining r h =
    let flag : (r.global_link_saturated || (r.has_hw_counters && false)) ≡ false =
      ap (λ (b : Bool). b || (r.has_hw_counters && false)) h.no_flag
      ∙ and_false r.has_hw_counters in
    let d = (route_kv_placement size none remaining false r).1 in
    elim (route_kv_placement-Explains size none remaining false r) [
      | inl near ↦ ap is_deferred near.0
      | inr (alone, cross, target, inl late) ↦ absurd (false≢true (sym flag ∙ late.1))
      | inr (alone, cross, target, inr sent) ↦ ap is_deferred sent.0
    ]

module _ (libs : Libraries) (sqrt : Frac → Frac) where
  -- A placement that is not deferred, as it leaves the scheduler.
  placed : Call → TopologyRouter → Scheduler → Scheduler
  placed c r s = record s {
    topo_router =
        some
          (route_kv_placement (size_of c.meta) none (safe_window libs sqrt c.submitted_at s) false
            r).0;
  }

  place-passes :
      (c : Call) (r : TopologyRouter) (s : Scheduler)
      → s.topo_router ≡ some r
      → IsQuiet r
      → place libs sqrt false c s ≡ (placed c r s, false)
  unfolding place place_by placed
  place-passes c r s has h =
      ap (λ (o : Option TopologyRouter). place_by libs sqrt o false c s) has
      ∙ ap (λ (b : Bool). (placed c r s, b))
          (route-not_deferred (size_of c.meta) (safe_window libs sqrt c.submitted_at s) r h)

  -- What V3 does behind the submission.
  abbrev resumed : Call → Scheduler × Bool → Scheduler × Answer
  resumed c p =
      if p.1
      then (p.0, no_path)
      else let (saved, answer) = checkpoint_v2 libs sqrt c p.0 in (saved, dropped libs sqrt answer)

  -- A checkpoint of V3: two jobs are counted, the files are as V2 leaves them, and no path is answered.
  pub record IsTwice (c : Call) (g : GainScheduler) (s : Scheduler) (r : Scheduler × Answer)
      : Type 0 where
    pub counts : Counts libs sqrt 2 g r.0
    pub outcome :
        (r.1 ≡ no_path) × (r.0.ckpt_manager ≡ s.ckpt_manager)
        ⊎ (r.1 ≡ or_raises c.saving no_path)
          × (r.0.ckpt_manager ≡ save_async c.step c.saving s.ckpt_manager)

  dropped-or_raises :
      (saving : Saving) (step : ℕ)
      → dropped libs sqrt (or_raises saving (local_path step)) ≡ or_raises saving no_path
  dropped-or_raises (wrote content) step = refl
  dropped-or_raises (broke part) step = refl

  twice :
      (c : Call) (g : GainScheduler) (s before : Scheduler) (r : Scheduler × Answer)
      → before.ckpt_manager ≡ s.ckpt_manager
      → IsStaged libs sqrt c (submit_job libs 0 c.step c.submitted_at g).0 before r
      → IsTwice c g s (r.0, dropped libs sqrt r.1)
  twice c g s before r same h =
      let (g', its, jobs) = h.counts in
      let one = submit_job-counts libs sqrt 0 c.step c.submitted_at g in
      record {
        counts = (g', its, omega (arith, jobs, one));
        outcome = elim h.stages [
          | inl none_saved ↦ inl (ap (dropped libs sqrt) none_saved.0, none_saved.1 ∙ same)
          | inr saved ↦ inr (
            ap (dropped libs sqrt) saved.0 ∙ dropped-or_raises c.saving c.step,
            saved.1 ∙ ap (save_async c.step c.saving) same,
          )
        ];
      }

  resumed-IsTwice :
      (c : Call) (g : GainScheduler) (r : TopologyRouter) (s before : Scheduler)
      → is_tempo before.mode ≡ true
      → before.svc_gain ≡ some (submit_job libs 0 c.step c.submitted_at g).0
      → before.ckpt_manager ≡ s.ckpt_manager
      → before.topo_router ≡ some r
      → IsQuiet r
      → IsTwice c g s (resumed c (place libs sqrt false c before))
  unfolding placed
  resumed-IsTwice c g r s before e its same has quiet =
      let after = placed c r before in
      let staged =
        checkpoint_v2-IsStaged libs sqrt c (submit_job libs 0 c.step c.submitted_at g).0 after e
          its in
      subst (λ (p : Scheduler × Bool). IsTwice c g s (resumed c p))
        (sym (place-passes c r before has quiet))
        (twice c g s after (checkpoint_v2 libs sqrt c after) same staged)

  -- Whatever NICs the router of V3 found, with counters that are not polled and without the flag, no
  -- checkpoint is deferred by its placement: in the mode "tempo" and with the gain each is counted as
  -- two jobs of the gain, one of V3 and one of V2, the manager is as it was or has taken one
  -- `save_async`, and unless `torch.save` raises, which the checkpoint then does, the answer is no path
  -- even where the checkpoint is saved.
  pub checkpoint_v3-IsTwice :
      (n_nics threshold : ℕ) (c : Call) (g : GainScheduler) (r : TopologyRouter) (s : Scheduler)
      → is_tempo s.mode ≡ true
      → s.svc_gain ≡ some g
      → s.topo_router ≡ some r
      → IsQuiet r
      → IsTwice c g s (checkpoint_v3 libs sqrt (unpolled n_nics threshold) c s)
  unfolding checkpoint_v3 mark submitted
  checkpoint_v3-IsTwice n_nics threshold c g r s e its has quiet =
      let p = (submit_job libs 0 c.step c.submitted_at g).1 in
      let marked = mark p.gain (submitted libs sqrt c g s) in
      subst
        (λ (q : Scheduler × Option FlushPriority).
          IsTwice c g s (resumed c (place libs sqrt false c (mark (gain_of q.1) q.0))))
        (sym (submit-some libs sqrt c g s its))
        (resumed-IsTwice c g r s marked e refl refl has quiet)
