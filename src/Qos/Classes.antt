-- ===== src/Qos/Classes.antt =====
-- The classes that `QoSMapper.classify` (tempo/qos_mapper.py) and `gain_to_cxi_tc`
-- (tempo/libfabric_qos.py) choose.
use working_tempo.Base.{
  refl, Nat-cases, ◌≢◌, ℕ, ◌+◌, ◌*◌, ◌≤◌, ◌<◌, ◌≡◌, ◌⊎◌, inl, inr, true, false, arith, Bool-cases,
  leb→le, le→leb,
}
use working_tempo.Base.Frac
use working_tempo.Base.Frac.{
  Frac, frac, whole, le_frac, lt_frac, min_frac, LeFrac, LeFrac-trans, mul_pos, min_frac-le_left,
  min_frac-le_right, add-LeFrac_left, add-LeFrac_right, mul-LeFrac, add-LeFrac_self,
}
use working_tempo.Qos.{
  Tc, background, latency, tc_value, TrafficType, nccl, bg_io, other, QosMapper, bump, total,
  PerClass, classify, tc_of, tc_of_gain, effective_gain, build_tc,
}
use working_tempo.Qos.Fabric.{gain_to_cxi_tc, cxi_tc_to_socket_tc, first_at_most}

le_frac_trans : (t a b : Frac) → 0 < a.den → LeFrac a b → le_frac t a ≡ true → le_frac t b ≡ true
le_frac_trans t a b p h k = le→leb _ _ (LeFrac-trans t a b p (leb→le _ _ k) h)

tc_of_gain-le :
    (a b : Frac) → 0 < a.den → LeFrac a b → tc_value (tc_of_gain a) ≤ tc_value (tc_of_gain b)
unfolding tc_of_gain
tc_of_gain-le a b p h =
    let f = λ (t : Frac). le_frac_trans t a b p h in
    ground (arith, f (frac 70 100), f (frac 40 100), f (frac 15 100))

min-LeFrac :
    (a b : Frac) → 0 < a.den → LeFrac a b → LeFrac (min_frac (whole 1) a) (min_frac (whole 1) b)
min-LeFrac a b p h = elim (Bool-cases (lt_frac b (whole 1))) [
  | inl less ↦ rw less (LeFrac-trans (min_frac (whole 1) a) a b p (min_frac-le_right (whole 1) a) h)
  | inr not_less ↦ rw not_less (min_frac-le_left (whole 1) a)
]

min-pos : (a : Frac) → 0 < a.den → 0 < (min_frac (whole 1) a).den
min-pos a p = ground arith

sum-pos : (g u : Frac) → 0 < g.den → 0 < u.den → 0 < (Frac.add g (Frac.mul (frac 8 100) u)).den
sum-pos g u p q = mul_pos g.den (100 * u.den) p (mul_pos 100 u.den (omega arith) q)

effective_gain-pos : (g u : Frac) → 0 < g.den → 0 < u.den → 0 < (effective_gain g u).den
unfolding effective_gain
effective_gain-pos g u p q = min-pos (Frac.add g (Frac.mul (frac 8 100) u)) (sum-pos g u p q)

effective_gain-le :
    (g h u v : Frac)
    → 0 < g.den
    → 0 < h.den
    → 0 < u.den
    → LeFrac g h
    → LeFrac u v
    → LeFrac (effective_gain g u) (effective_gain h v)
unfolding effective_gain
effective_gain-le g h u v p q r a b =
    let c = Frac.mul (frac 8 100) u in
    let d = Frac.mul (frac 8 100) v in
    min-LeFrac (Frac.add g c) (Frac.add h d) (sum-pos g u p r) (
      LeFrac-trans (Frac.add g c) (Frac.add h c) (Frac.add h d) (sum-pos h u q r)
        (add-LeFrac_left g h c a) (add-LeFrac_right c d h (mul-LeFrac u v (frac 8 100) b)))

tc_of-le :
    (t : TrafficType) (g h u v : Frac)
    → 0 < g.den
    → 0 < h.den
    → 0 < u.den
    → LeFrac g h
    → LeFrac u v
    → tc_value (tc_of t g u) ≤ tc_value (tc_of t h v)
unfolding tc_of
tc_of-le nccl g h u v p q r a b = omega arith
tc_of-le bg_io g h u v p q r a b = omega arith
tc_of-le other g h u v p q r a b =
    tc_of_gain-le (effective_gain g u) (effective_gain h v) (effective_gain-pos g u p r)
      (effective_gain-le g h u v p q r a b)

-- A higher class is marked at least as high.
marks-le :
    (a b : Tc)
    → tc_value a ≤ tc_value b
    → ((build_tc a).tos_byte ≤ (build_tc b).tos_byte)
      × ((build_tc a).so_prio ≤ (build_tc b).so_prio)
unfolding build_tc
marks-le a b h = ground arith

-- With more gain and more urgency an operation of the same kind never gets a lower class, nor lower
-- marks for the IP header and the socket.
pub classify-le :
    (t : TrafficType) (g h u v : Frac) (size : ℕ) (m : QosMapper)
    → 0 < g.den
    → 0 < h.den
    → 0 < u.den
    → LeFrac g h
    → LeFrac u v
    → let low = (classify g t u size m).1 in
      let high = (classify h t v size m).1 in
      (tc_value low.tc ≤ tc_value high.tc)
      × (low.tos_byte ≤ high.tos_byte)
      × (low.so_prio ≤ high.so_prio)
unfolding classify build_tc
classify-le t g h u v size m p q r a b =
    let le = tc_of-le t g h u v p q r a b in
    let marks = marks-le (tc_of t g u) (tc_of t h v) le in ground (arith, le, marks)

-- The thresholds of the two modules are the same.
fabric-tc_of_gain : (g : Frac) → cxi_tc_to_socket_tc (gain_to_cxi_tc g) ≡ tc_of_gain g
unfolding gain_to_cxi_tc first_at_most tc_of_gain
fabric-tc_of_gain g = ground arith

tc_value-injective : (a b : Tc) → tc_value a ≤ tc_value b → tc_value b ≤ tc_value a → a ≡ b
tc_value-injective a b h k = ground arith

-- The gain itself decides as if it were cut to 1.
cut-tc_of_gain : (g : Frac) → tc_of_gain (min_frac (whole 1) g) ≡ tc_of_gain g
unfolding tc_of_gain
cut-tc_of_gain g = ground arith

sum-le_self : (g u : Frac) → u.num ≡ 0 → LeFrac (Frac.add g (Frac.mul (frac 8 100) u)) g
sum-le_self g u z = rw z (omega arith)

-- For an operation that is neither NCCL traffic nor background I/O, the class that an enabled mapper
-- gives the socket is never lower than that which the fabric's endpoint gets for the same gain, and
-- without urgency the two are the same.
pub tc_of-fabric :
    (g u : Frac)
    → 0 < g.den
    → 0 < u.den
    → let fabric = cxi_tc_to_socket_tc (gain_to_cxi_tc g) in
      (tc_value fabric ≤ tc_value (tc_of other g u)) × ((0 < u.num) ⊎ (tc_of other g u ≡ fabric))
unfolding tc_of effective_gain
tc_of-fabric g u p q =
    let s = Frac.add g (Frac.mul (frac 8 100) u) in
    let up = tc_of_gain-le g s p (add-LeFrac_self g (Frac.mul (frac 8 100) u)) in
    let same = fabric-tc_of_gain g in
    let cut = cut-tc_of_gain s in
    (
      rw (same, cut) up,
      elim (Nat-cases u.num) [
        | inr urgent ↦ inl urgent
        | inl z ↦ inr (
            rw (same, cut)
              (tc_value-injective (tc_of_gain s) (tc_of_gain g)
                (tc_of_gain-le s g (sum-pos g u p q) (sum-le_self g u z)) up))
      ],
    )

total-bump : (tc : Tc) (n : ℕ) (c : PerClass) → total (bump tc n c) ≡ total c + n
unfolding bump
total-bump tc n c = ground arith

tc_of-nccl : (t : TrafficType) (g u : Frac) → (t ≢ nccl) ⊎ (tc_of t g u ≡ latency)
unfolding tc_of
tc_of-nccl nccl g u = inr refl
tc_of-nccl bg_io g u = inl (λ e. absurd (ground (arith, e)))
tc_of-nccl other g u = inl (λ e. absurd (ground (arith, e)))

tc_of-bg_io : (t : TrafficType) (g u : Frac) → (t ≢ bg_io) ⊎ (tc_of t g u ≡ background)
unfolding tc_of
tc_of-bg_io bg_io g u = inr refl
tc_of-bg_io nccl g u = inl (λ e. absurd (ground (arith, e)))
tc_of-bg_io other g u = inl (λ e. absurd (ground (arith, e)))

-- An enabled mapper counts each operation once, with its bytes, and gives NCCL traffic the highest
-- class and background I/O the lowest. One that is not enabled counts nothing and gives the lowest.
pub classify_lem :
    (g : Frac) (t : TrafficType) (u : Frac) (size : ℕ) (m : QosMapper)
    → let (m', c) = classify g t u size m in
      ((m.enabled ≡ true)
        × (total m'.counters ≡ total m.counters + 1)
        × (total m'.bytes ≡ total m.bytes + size)
        × ((t ≢ nccl) ⊎ (c.tc ≡ latency))
        × ((t ≢ bg_io) ⊎ (c.tc ≡ background)))
      ⊎ ((m.enabled ≡ false) × (m' ≡ m) × (c.tc ≡ background))
unfolding classify tc_of build_tc
classify_lem g t u size m = elim (Bool-cases m.enabled) [
  | inr off ↦ inr (off, ground (arith, off), ground (arith, off))
  | inl on ↦ inl (
    on,
    ground (arith, on, total-bump (tc_of t g u) 1 m.counters),
    ground (arith, on, total-bump (tc_of t g u) size m.bytes),
    rw on (tc_of-nccl t g u),
    rw on (tc_of-bg_io t g u),
  )
]
