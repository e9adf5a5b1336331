-- ===== src/Nexus/Windows.antt =====
-- The windows and the gates of `NexusCoordinator` (tempo/nexus_coordinator.py).
use working_tempo.Base.{
  ℕ, ◌+◌, ◌*◌, ◌≤◌, ◌<◌, ◌≡◌, ◌≢◌, ◌⊎◌, refl, inl, inr, some, List, [], ◌∷◌, arith, get_elem?,
  Bool-cases, ltb, ap, sym, ◌∙◌,
}
use native.Mathlib.Nat.{mul-le-mul_right}
use working_tempo.Base.Frac
use working_tempo.Base.Frac.{
  Frac, frac, whole, LeFrac, min_frac, max_frac, le-max_frac_left, min_frac-le_left,
}
use working_tempo.Interleave.Average.{smoothed-le, smoothed-ge}
use working_tempo.Nexus.{
  NexusCoordinator, CheckpointWindow, sorted_ranks, slot_ms, delay_of, compute_window, clamped,
  record_flush_time,
}
use working_tempo.Nexus.Order.{
  sorted_ranks-InOrder, length-sorted_ranks, elem-sorted_ranks, index_of_lem, get_elem-InOrder,
}

-- Every rank of the world gets a window, at a position below the number of ranks, at which the sorted
-- ranks have it.
compute_window_total :
    (load : ℕ → ℕ) (step : ℕ) (s : NexusCoordinator)
    → s.rank < s.world_size
    → (w : CheckpointWindow) × (compute_window load step s ≡ some w)
      × (w.position < s.world_size)
      × (get_elem? (sorted_ranks load s.world_size) w.position ≡ some s.rank)
      × (w.delay_ms ≡ delay_of w.position s)
      × (w.window_ms ≡ s.window_ms_ema)
unfolding compute_window
compute_window_total load step s h =
    let (i, e, l, g) =
      index_of_lem load s.rank (sorted_ranks load s.world_size)
        (elem-sorted_ranks load s.world_size s.rank h) in
    let w : CheckpointWindow = record {
      rank = s.rank;
      step = step;
      delay_ms = delay_of i s;
      window_ms = s.window_ms_ema;
      my_load = load s.rank;
      position = i;
    } in
    (
      w,
      rw (e, compute_window) refl,
      omega (arith, l, length-sorted_ranks load s.world_size),
      g,
      refl,
      refl,
    )

later-delay :
    (p q : ℕ) (slot : Frac)
    → p < q
    → LeFrac (Frac.add (Frac.mul (whole p) slot) slot) (Frac.mul (whole q) slot)
later-delay p q slot h =
    let le : p + 1 ≤ q = omega arith in
    let x = mul-le-mul_right (slot.num * slot.den * slot.den) le in omega (arith, x)

-- Two ranks of the same world that agree on the loads, on the estimate of the window and on the
-- overlap both get a window. The slots do not overlap: one rank's slot has ended when the other's delay
-- ends; and a rank with less load than the other is the earlier one.
pub compute_window_disjoint :
    (load : ℕ → ℕ) (step : ℕ) (s t : NexusCoordinator)
    → t.world_size ≡ s.world_size
    → t.window_ms_ema ≡ s.window_ms_ema
    → t.overlap_frac ≡ s.overlap_frac
    → s.rank < s.world_size
    → t.rank < t.world_size
    → s.rank ≢ t.rank
    → (v w : CheckpointWindow) × (compute_window load step s ≡ some v)
      × (compute_window load step t ≡ some w)
      × (LeFrac (Frac.add v.delay_ms (slot_ms s)) w.delay_ms
          ⊎ LeFrac (Frac.add w.delay_ms (slot_ms s)) v.delay_ms)
      × ((v.position < w.position) ⊎ (load t.rank ≤ load s.rank))
unfolding delay_of slot_ms
compute_window_disjoint load step s t same_world same_window same_overlap h k ne =
    let (v, a1, a2, a3, a4, a5) = compute_window_total load step s h in
    let (w, b1, b2, b3, b4, b5) = compute_window_total load step t k in
    let slot = slot_ms s in
    let ranks = sorted_ranks load s.world_size in
    let there : get_elem? ranks w.position ≡ some t.rank =
      sym (ap (λ n. get_elem? (sorted_ranks load n) w.position) same_world) ∙ b3 in
    let apart : v.position ≢ w.position =
      λ e. ne (ground (arith, sym a3 ∙ ap (λ i. get_elem? ranks i) e ∙ there)) in
    let vd : v.delay_ms ≡ Frac.mul (whole v.position) slot = a4 in
    let wd : w.delay_ms ≡ Frac.mul (whole w.position) slot =
      b4 ∙ rw (same_window, same_overlap) refl in
    (
      v,
      w,
      a1,
      b1,
      elim (Bool-cases (ltb v.position w.position)) [
        | inl first ↦
            inl (rw (vd, wd) (later-delay v.position w.position slot (ground (arith, first))))
        | inr second ↦
            inr
              (rw (vd, wd) (later-delay w.position v.position slot (ground (arith, second, apart))))
      ],
      elim (Bool-cases (ltb v.position w.position)) [
        | inl first ↦ inl (ground (arith, first))
        | inr second ↦ inr (
            get_elem-InOrder load ranks w.position v.position t.rank s.rank
              (sorted_ranks-InOrder load s.world_size) (ground (arith, second)) there a3)
      ],
    )

clamped_lem :
    (elapsed : Frac) → LeFrac (whole 50) (clamped elapsed) × LeFrac (clamped elapsed) (whole 2000)
unfolding clamped
clamped_lem elapsed = (le-max_frac_left (whole 50) (min_frac (whole 2000) elapsed), ground arith)

-- Flushes that are reported one after the other.
abbrev pub record_all : List Frac → NexusCoordinator → NexusCoordinator
record_all [] s = s
record_all (elapsed ∷ more) s = record_all more (record_flush_time elapsed s)

-- However long the flushes take, an estimate that starts between 50 and 2000 ms stays there.
pub record_all-within :
    (times : List Frac) (s : NexusCoordinator)
    → LeFrac (whole 50) s.window_ms_ema
    → LeFrac s.window_ms_ema (whole 2000)
    → LeFrac (whole 50) (record_all times s).window_ms_ema
      × LeFrac (record_all times s).window_ms_ema (whole 2000)
unfolding record_flush_time
record_all-within [] s a b = (a, b)
record_all-within (elapsed ∷ more) s a b =
    let (c, d) = clamped_lem elapsed in
    record_all-within more (record_flush_time elapsed s)
      (smoothed-ge (frac 25 100) (clamped elapsed) s.window_ms_ema (whole 50) (omega arith) c a)
      (smoothed-le (frac 25 100) (clamped elapsed) s.window_ms_ema (whole 2000) (omega arith) d b)
