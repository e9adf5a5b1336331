-- ===== src/Qos/Fabric.antt =====
-- tempo/libfabric_qos.py: the traffic classes of the NIC's endpoints. `fi_setopt` of libfabric is a
-- parameter: whether it answers 0 for an endpoint and a value.
use working_tempo.Base.{
  ℕ, zero, suc, ◌+◌, Bool, true, false, not, ◌||◌, none, some, List, [], ◌∷◌, if◌then◌else◌, ◌==◌,
}
use working_tempo.Base.Dict.{Dict, lookup, insert}
use working_tempo.Base.Frac.{Frac, frac, le_frac}
use working_tempo.Qos.{Tc, background, storage, bulk, latency}

pub data CxiTc : Type 0 where
  unspecified best_effort cxi_storage cxi_bulk low_latency : CxiTc

abbrev pub cxi_value : CxiTc → ℕ
cxi_value unspecified = 0
cxi_value best_effort = 1
cxi_value cxi_storage = 2
cxi_value cxi_bulk = 4
cxi_value low_latency = 6

-- `_GAIN_TO_CXI_TC`
abbrev pub gain_table : List (Frac × CxiTc)
gain_table =
    (frac 70 100, low_latency)
    ∷ (frac 40 100, cxi_bulk)
    ∷ (frac 15 100, cxi_storage)
    ∷ (frac 0 100, best_effort)
    ∷ []

unfoldable pub first_at_most : Frac → List (Frac × CxiTc) → CxiTc
first_at_most gain [] = best_effort
first_at_most gain ((threshold, tc) ∷ rows) =
    let rest = first_at_most gain rows in if le_frac threshold gain then tc else rest

unfoldable pub gain_to_cxi_tc : Frac → CxiTc
unfolding first_at_most
gain_to_cxi_tc gain = first_at_most gain gain_table

-- `_CXI_TC_TO_SOCKET_TC`
abbrev pub cxi_tc_to_socket_tc : CxiTc → Tc
cxi_tc_to_socket_tc unspecified = background
cxi_tc_to_socket_tc best_effort = background
cxi_tc_to_socket_tc cxi_storage = storage
cxi_tc_to_socket_tc cxi_bulk = bulk
cxi_tc_to_socket_tc low_latency = latency

pub record EndpointQos : Type 0 where
  pub ep_ptr : ℕ
  pub current : CxiTc
  pub dry : Bool
  pub set_count : ℕ

-- Is libfabric loaded, is CXI there too, and what does `fi_setopt` answer?
pub record Libfabric : Type 0 where
  pub loaded : Bool
  pub available : Bool
  pub setopt : ℕ → ℕ → Bool

module _ (lib : Libfabric) where
  -- `_apply`: the endpoint, its answer, and the values for which `fi_setopt` was called.
  unfoldable pub apply : CxiTc → EndpointQos → EndpointQos × Bool × List ℕ
  apply tc e =
      if e.dry
      then (record e { set_count = e.set_count + 1 }, true, [])
      else if not lib.loaded || (e.ep_ptr == 0)
      then (e, false, [])
      else if lib.setopt e.ep_ptr (cxi_value tc)
      then (record e { set_count = e.set_count + 1 }, true, cxi_value tc ∷ [])
      else (e, false, cxi_value tc ∷ [])

  -- `__init__`: the first class is applied, and what that answers is not used.
  unfoldable pub new_endpoint : ℕ → CxiTc → Bool → EndpointQos × List ℕ
  unfolding apply
  new_endpoint ep_ptr initial dry_run =
      let e : EndpointQos = record {
        ep_ptr = ep_ptr;
        current = initial;
        dry = dry_run || not lib.available;
        set_count = 0;
      } in
      if not e.dry then ((apply initial e).0, (apply initial e).2) else (e, [])

  unfoldable pub set_tc : CxiTc → EndpointQos → EndpointQos × Bool × List ℕ
  unfolding apply
  set_tc tc e =
      if cxi_value tc == cxi_value e.current
      then (e, false, [])
      else let (e', ok, calls) = apply tc e in
        (if ok then record e' { current = tc } else e', ok, calls)

  unfoldable pub set_tc_for_gain : Frac → EndpointQos → EndpointQos × CxiTc
  unfolding set_tc gain_to_cxi_tc
  set_tc_for_gain gain e = ((set_tc (gain_to_cxi_tc gain) e).0, gain_to_cxi_tc gain)

  -- `FabricQoSManager.attach_pool`, for the NICs from `nic` on: the pointers of the pool's endpoints,
  -- and 0 where there is none.
  unfoldable pub attach_pool : ℕ → ℕ → CxiTc → Bool → Dict ℕ → Dict EndpointQos → Dict EndpointQos
  unfolding new_endpoint
  attach_pool zero nic default dry_run pool d = d
  attach_pool (suc left) nic default dry_run pool d =
      let ptr : ℕ = elim (lookup nic pool) [ some p ↦ p | none ↦ 0 ] in
      attach_pool left (nic + 1) default dry_run pool
        (insert nic (new_endpoint ptr default dry_run).0 d)

  -- `FabricQoSManager.apply_for_gain`
  unfoldable pub apply_for_gain : ℕ → Frac → Dict EndpointQos → Dict EndpointQos × CxiTc
  unfolding set_tc gain_to_cxi_tc
  apply_for_gain nic gain d =
      let tc = gain_to_cxi_tc gain in
      elim (lookup nic d) [ some e ↦ (insert nic (set_tc tc e).0 d, tc) | none ↦ (d, tc) ]

  -- `FabricQoSManager.set_all_tc`
  unfoldable pub set_all_tc : CxiTc → Dict EndpointQos → Dict EndpointQos
  unfolding set_tc
  set_all_tc tc [] = []
  set_all_tc tc ((nic, e) ∷ d) = (nic, (set_tc tc e).0) ∷ set_all_tc tc d
