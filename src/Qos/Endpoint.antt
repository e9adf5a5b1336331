-- ===== src/Qos/Endpoint.antt =====
-- `CXIEndpointQoS` and `FabricQoSManager` (tempo/libfabric_qos.py): the class that an endpoint has.
use working_tempo.Base.{
  ℕ, ◌+◌, ◌≤◌, ◌≡◌, ◌≢◌, ◌⊎◌, refl, inl, inr, true, false, some, [], arith, ◌==◌, Bool-cases,
  length,
}
use working_tempo.Base.Dict.{Dict, lookup, lookup-insert_self, lookup-insert_ne}
use working_tempo.Base.Frac.{Frac}
use working_tempo.Qos.Fabric.{
  CxiTc, cxi_value, EndpointQos, Libfabric, apply, set_tc, apply_for_gain, gain_to_cxi_tc,
}

cxi_value-injective : (a b : CxiTc) → cxi_value a ≡ cxi_value b → a ≡ b
cxi_value-injective a b h = ground arith

module _ (lib : Libfabric) where
  -- `set_tc` answers True where it changed the class, which it counts once; where it answers False
  -- the endpoint is as it was. It calls `fi_setopt` at most once, and not for the class that the
  -- endpoint has.
  pub set_tc_lem :
      (tc : CxiTc) (e : EndpointQos)
      → let (e', ok, calls) = set_tc lib tc e in
        (((ok ≡ true) × (e'.current ≡ tc) × (e'.set_count ≡ e.set_count + 1) × (tc ≢ e.current))
          ⊎ ((ok ≡ false) × (e' ≡ e)))
        × (length calls ≤ 1)
        × ((tc ≢ e.current) ⊎ (calls ≡ []))
  unfolding set_tc apply
  set_tc_lem tc e = elim (Bool-cases (cxi_value tc == cxi_value e.current)) [
    | inl same ↦ rw same (inr (refl, refl), omega arith, inr refl)
    | inr other ↦
        let ne : tc ≢ e.current = λ h. absurd (ground (arith, other, h)) in
        rw other (ground (arith, ne), ground arith, inl ne)
  ]

  -- An endpoint that takes every class: it is dry, or `fi_setopt` answers 0 for it.
  abbrev pub Settable : EndpointQos → Type 0
  Settable e =
      (e.dry ≡ true)
      ⊎ ((e.dry ≡ false)
          × (lib.loaded ≡ true)
          × (e.ep_ptr ≢ 0)
          × ((v : ℕ) → lib.setopt e.ep_ptr v ≡ true))

  set_tc-current : (tc : CxiTc) (e : EndpointQos) → Settable e → (set_tc lib tc e).0.current ≡ tc
  unfolding set_tc apply
  set_tc-current tc e ok = elim (Bool-cases (cxi_value tc == cxi_value e.current)) [
    | inl same ↦
        let q : tc ≡ e.current = cxi_value-injective tc e.current (ground (arith, same)) in
        ground (arith, same, q)
    | inr other ↦ elim ok [
      | inl dry ↦ ground (arith, other, dry)
      | inr (wet, loaded, ptr, sets) ↦ ground (arith, other, wet, loaded, ptr, sets (cxi_value tc))
    ]
  ]

  -- `apply_for_gain` gives an endpoint that takes every class the class of the gain, and leaves the other
  -- NICs alone.
  pub apply_for_gain_lem :
      (nic : ℕ) (gain : Frac) (d : Dict EndpointQos) (e : EndpointQos)
      → lookup nic d ≡ some e
      → Settable e
      → let (d', tc) = apply_for_gain lib nic gain d in
        (f : EndpointQos) × (lookup nic d' ≡ some f)
        × (f.current ≡ gain_to_cxi_tc gain)
        × (tc ≡ gain_to_cxi_tc gain)
        × ((j : ℕ) → j ≢ nic → lookup j d' ≡ lookup j d)
  unfolding apply_for_gain
  apply_for_gain_lem nic gain d e found ok =
      let tc = gain_to_cxi_tc gain in
      let f = (set_tc lib tc e).0 in
      rw (found, apply_for_gain)
        (
          f,
          lookup-insert_self nic f d,
          set_tc-current tc e ok,
          refl,
          λ j ne. lookup-insert_ne j nic f d ne,
        )
