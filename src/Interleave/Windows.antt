-- ===== src/Interleave/Windows.antt =====
-- The windows of `InterleavingEngine` (tempo/interleaving_engine.py) over any sequence of its events.
use working_tempo.Base.{
  ℕ, ◌+◌, ◌*◌, ◌≤◌, ◌<◌, ◌≡◌, ◌⊎◌, refl, inl, inr, true, false, Option, none, some, ap, sym, subst,
  arith, Bool-cases, if◌then◌else◌,
}
use working_tempo.Base.Frac
use native.Mathlib.Nat.{mul-le-mul_right}
use working_tempo.Base.Frac.{
  Frac, frac, mul_pos, whole, LeFrac, le_frac, max_frac, le-max_frac_left,
}
use working_tempo.Interleave.{
  Engine, Predictor, new_engine, safety_margin, safe_window, on_compute_start, on_compute_end,
  on_nccl_end, expire, fire_deadline, leave_compute,
}

-- What is taken off a difference and more is at most the whole.
rest-le :
    (x an ad bn bd cn cd : ℕ)
    → x + bn * ad ≡ an * bd
    → cn * bd ≤ bn * cd
    → (x * cd + cn * (ad * bd)) * ad ≤ an * (ad * bd * cd)
rest-le x an ad bn bd cn cd e h =
    let y = mul-le-mul_right (ad * ad) h in
    let f : (x + bn * ad) * (cd * ad) ≡ an * bd * (cd * ad) = rw e in omega (arith, y, f)

sub-le : (a b c : Frac) → LeFrac c b → 0 < (Frac.sub a b).num → LeFrac (Frac.add (Frac.sub a b) c) a
sub-le a b c h pos =
    rest-le (Frac.sub a b).num a.num a.den b.num b.den c.num c.den (omega (arith, pos)) h

wide-le : (a : Frac) → le_frac (whole 1) a ≡ true → LeFrac (whole 1) a
wide-le a h = ground (arith, h)

narrow-lt : (a : Frac) → le_frac (whole 1) a ≡ false → a.num < a.den
narrow-lt a h = ground (arith, h)

wide-pos : (a : Frac) → 0 < a.den → le_frac (whole 1) a ≡ true → 0 < a.num
wide-pos a p h = ground (arith, h)

pub expire-none : (e : Engine) → e.timer ≡ none → expire e ≡ e
expire-none e off =
    ap
      (λ (o : Option Frac). elim o [
        | none ↦ e
        | some due ↦ record e { timer = none; waiting = e.waiting + 1 }
      ])
      off

expire-some :
    (e : Engine) (due : Frac)
    → e.timer ≡ some due
    → expire e ≡ record e { timer = none; waiting = e.waiting + 1 }
expire-some e due on =
    ap
      (λ (o : Option Frac). elim o [
        | none ↦ e
        | some due ↦ record e { timer = none; waiting = e.waiting + 1 }
      ])
      on

module _ (sqrt : Frac → Frac) where
  -- The events: the hooks at any time, the timer, which runs out where it is started, and its callback,
  -- which runs at any time after that.
  pub data Step : Engine → Engine → Type 0 where
    starts : {e : Engine} (now : ℕ) → Step e (on_compute_start sqrt now e)
    ends : {e : Engine} (now : ℕ) → Step e (on_compute_end now e)
    nccl_ends : {e : Engine} (dur : Frac) → Step e (on_nccl_end dur e)
    expires : {e : Engine} → Step e (expire e)
    fires : {e : Engine} → 0 < e.waiting → Step e (fire_deadline e)

  pub data Reaches : Engine → Engine → Type 0 where
    here : {e : Engine} → Reaches e e
    next : {e f g : Engine} → Reaches e f → Step f g → Reaches e g

  -- The early cuts that are still to come, and the late one.
  abbrev pending_cuts : Engine → ℕ
  pending_cuts e = e.waiting + elim e.timer [ some _ ↦ 1 | none ↦ 0 ]

  abbrev late_cut : Engine → ℕ
  late_cut e = if e.deadline then 0 else 1

  record IsCounted (e : Engine) : Type 0 where
    early : e.io_windows_cut_early + pending_cuts e ≤ e.io_windows_opened
    late : e.io_windows_cut_late + late_cut e ≤ e.io_windows_opened + 1

  expire-IsCounted :
      (e : Engine) (o : Option Frac) → e.timer ≡ o → IsCounted e → IsCounted (expire e)
  expire-IsCounted e none off h = subst IsCounted (sym (expire-none e off)) h
  expire-IsCounted e (some due) on h =
      let one : pending_cuts e ≡ e.waiting + 1 =
        ap (λ (o : Option Frac). e.waiting + elim o [ some _ ↦ 1 | none ↦ 0 ]) on in
      subst IsCounted (sym (expire-some e due on))
        (record { early = omega (arith, h.early, one); late = h.late })

  Step-IsCounted : {e f : Engine} → Step e f → IsCounted e → IsCounted f
  unfolding on_compute_start on_compute_end on_nccl_end fire_deadline leave_compute
  Step-IsCounted {e} {f} (starts now) h =
      elim (Bool-cases (le_frac (whole 1) (safe_window sqrt e.predictor))) [
        | inl wide ↦
            rw wide (record { early = omega (arith, h.early); late = ground (arith, h.late) })
        | inr narrow ↦
            rw narrow (record { early = omega (arith, h.early); late = ground (arith, h.late) })
      ]
  Step-IsCounted {e} {f} (ends now) h = ground (arith, h.early, h.late)
  Step-IsCounted {e} {f} (nccl_ends dur) h = ground (arith, h.early, h.late)
  Step-IsCounted {e} {f} expires h = expire-IsCounted e e.timer refl h
  Step-IsCounted {e} {f} (fires some_wait) h = record {
    early = omega (arith, h.early, some_wait);
    late = ground (arith, h.late);
  }

  Reaches-IsCounted : {e f : Engine} → Reaches e f → IsCounted e → IsCounted f
  Reaches-IsCounted here h = h
  Reaches-IsCounted (next r s) h = Step-IsCounted s (Reaches-IsCounted r h)

  -- However phases begin and end, timers run out and their callbacks get the lock, also behind a
  -- `cancel`, the early cuts that are counted are at most the windows that were opened, and the late
  -- ones at most one more: the time before the first compute phase.
  pub cuts-le_opened :
      (p : Predictor) {e : Engine}
      → Reaches (new_engine p) e
      → (e.io_windows_cut_early ≤ e.io_windows_opened)
        × (e.io_windows_cut_late ≤ e.io_windows_opened + 1)
  cuts-le_opened p r =
      let first : IsCounted (new_engine p) = record { early = omega arith; late = omega arith } in
      let h = Reaches-IsCounted r first in (omega (arith, h.early), omega (arith, h.late))

  -- No I/O, and no timer that is started.
  abbrev pub IsClosed : Engine → Type 0
  IsClosed e = (e.in_compute ≡ false) × (e.deadline ≡ true) × (e.timer ≡ none)

  -- Events other than the start of a compute phase.
  pub data Quiet : Engine → Engine → Type 0 where
    still : {e : Engine} → Quiet e e
    after_end : {e f : Engine} (now : ℕ) → Quiet e f → Quiet e (on_compute_end now f)
    after_nccl : {e f : Engine} (dur : Frac) → Quiet e f → Quiet e (on_nccl_end dur f)
    after_expiry : {e f : Engine} → Quiet e f → Quiet e (expire f)
    after_fire : {e f : Engine} → Quiet e f → 0 < f.waiting → Quiet e (fire_deadline f)

  on_compute_end-IsClosed : (now : ℕ) (e : Engine) → IsClosed (on_compute_end now e)
  unfolding on_compute_end leave_compute
  on_compute_end-IsClosed now e = (ground arith, ground arith, ground arith)

  Quiet-IsClosed : {e f : Engine} → IsClosed e → Quiet e f → IsClosed f
  unfolding on_nccl_end fire_deadline
  Quiet-IsClosed c still = c
  Quiet-IsClosed c (after_end {f = f} now q) = on_compute_end-IsClosed now f
  Quiet-IsClosed c (after_nccl dur q) = Quiet-IsClosed c q
  Quiet-IsClosed c (after_expiry {f = f} q) =
      let h = Quiet-IsClosed c q in subst IsClosed (sym (expire-none f h.2)) h
  Quiet-IsClosed c (after_fire q some_wait) =
      let (out, _, off) = Quiet-IsClosed c q in (out, refl, off)

  -- From the end of a compute phase to the start of the next, I/O is stopped and no timer is started,
  -- whatever else happens.
  pub ended-IsClosed :
      (now : ℕ) (e : Engine) {f : Engine} → Quiet (on_compute_end now e) f → IsClosed f
  ended-IsClosed now e q = Quiet-IsClosed (on_compute_end-IsClosed now e) q

  margin-ge : (p : Predictor) → LeFrac (whole 2) (safety_margin sqrt p)
  unfolding safety_margin
  margin-ge p = le-max_frac_left (whole 2) (Frac.mul (frac 15 100) (sqrt p.nccl_var))

  margin-pos : (p : Predictor) → 0 < (sqrt p.nccl_var).den → 0 < (safety_margin sqrt p).den
  unfolding safety_margin
  margin-pos p q = ground (arith, mul_pos 100 (sqrt p.nccl_var).den (omega arith) q)

  -- Where the prediction and the root have denominators that are not 0, a compute phase opens a window.
  -- Either at least 1 ms is safe, I/O may proceed and a timer is started for the end of the safe time,
  -- which is 2 ms or more before the end that is predicted; or less than 1 ms is safe and I/O is stopped
  -- from the start.
  pub on_compute_start_lem :
      (now : ℕ) (e : Engine)
      → 0 < e.predictor.compute_ewma.den
      → 0 < (sqrt e.predictor.nccl_var).den
      → let f = on_compute_start sqrt now e in
        let safe = safe_window sqrt e.predictor in
        (f.io_windows_opened ≡ e.io_windows_opened + 1)
        × (((f.deadline ≡ false)
              × LeFrac (whole 1) safe
              × (f.timer ≡ some (Frac.add (whole now) (Frac.mul safe (whole 1000))))
              × LeFrac (Frac.add safe (whole 2)) e.predictor.compute_ewma)
            ⊎ ((f.deadline ≡ true) × (safe.num < safe.den)))
  unfolding on_compute_start safe_window
  on_compute_start_lem now e p q =
      let margin = safety_margin sqrt e.predictor in
      let safe = Frac.sub e.predictor.compute_ewma margin in
      let some_left = λ (h : le_frac (whole 1) safe ≡ true).
        wide-pos safe (mul_pos e.predictor.compute_ewma.den margin.den p (margin-pos e.predictor q))
          h in
      elim (Bool-cases (le_frac (whole 1) safe)) [
        | inl wide ↦
            rw (wide, on_compute_start)
              (
                refl,
                inl (
                  refl,
                  wide-le safe wide,
                  refl,
                  sub-le e.predictor.compute_ewma margin (whole 2) (margin-ge e.predictor)
                      (some_left wide),
                ),
              )
        | inr narrow ↦ rw (narrow, on_compute_start) (refl, inr (refl, narrow-lt safe narrow))
      ]
