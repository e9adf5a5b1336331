-- ===== src/Qos/Tests.antt =====
-- Tests of tempo/qos_mapper.py and tempo/libfabric_qos.py, and the theorems at concrete inputs.
use working_tempo.Base.{
  inl, ◌<◌, ℕ, ◌≤◌, ◌≡◌, ◌≢◌, ◌⊎◌, refl, true, false, some, [], ◌∷◌, arith, not, ◌==◌, length,
}
use working_tempo.Base.Dict.{Dict, lookup}
use working_tempo.Base.Frac.{frac, whole}
use working_tempo.Qos.{
  QosMapper, new_mapper, other, nccl, bg_io, latency, background, total, tc_value, tc_of,
  tc_of_gain, effective_gain, bulk, storage, classify,
}
use working_tempo.Qos.Fabric.{
  EndpointQos, Libfabric, low_latency, cxi_storage, set_tc, apply_for_gain, gain_to_cxi_tc,
  cxi_tc_to_socket_tc,
}
use working_tempo.Qos.Classes.{classify-le, tc_of-fabric, classify_lem}
use working_tempo.Qos.Endpoint.{set_tc_lem, apply_for_gain_lem}

abbrev mapper : QosMapper
mapper = new_mapper true false true

-- A gain of 0.38 is bulk with full urgency, and storage without.
urgent_run : tc_of other (frac 38 100) (whole 1) ≡ bulk
unfolding tc_of tc_of_gain effective_gain
urgent_run = refl

patient_run : tc_of other (frac 38 100) (whole 0) ≡ storage
unfolding tc_of tc_of_gain effective_gain
patient_run = refl

classify-le_example :
    let low = (classify (frac 38 100) other (whole 0) 5 mapper).1 in
    let high = (classify (frac 39 100) other (whole 1) 5 mapper).1 in
    (tc_value low.tc ≤ tc_value high.tc)
    × (low.tos_byte ≤ high.tos_byte)
    × (low.so_prio ≤ high.so_prio)
classify-le_example =
    classify-le other (frac 38 100) (frac 39 100) (whole 0) (whole 1) 5 mapper (omega arith)
      (omega arith) (omega arith) (omega arith) (omega arith)

tc_of-fabric_example :
    let fabric = cxi_tc_to_socket_tc (gain_to_cxi_tc (frac 38 100)) in
    (tc_value fabric ≤ tc_value (tc_of other (frac 38 100) (frac 0 1)))
    × ((0 < 0) ⊎ (tc_of other (frac 38 100) (frac 0 1) ≡ fabric))
tc_of-fabric_example = tc_of-fabric (frac 38 100) (frac 0 1) (omega arith) (omega arith)

classify_lem_run :
    let (m', c) = classify (frac 1 2) nccl (whole 0) 7 mapper in
    ((true ≡ true)
      × (total m'.counters ≡ 1)
      × (total m'.bytes ≡ 7)
      × ((nccl ≢ nccl) ⊎ (c.tc ≡ latency))
      × ((nccl ≢ bg_io) ⊎ (c.tc ≡ background)))
    ⊎ ((true ≡ false) × (m' ≡ mapper) × (c.tc ≡ background))
classify_lem_run = classify_lem (frac 1 2) nccl (whole 0) 7 mapper

-- A libfabric that refuses the class of storage.
abbrev picky : Libfabric
picky = record { loaded = true; available = true; setopt = λ ptr v. not (v == 2) }

abbrev dry_endpoint : EndpointQos
dry_endpoint = record { ep_ptr = 0; current = cxi_storage; dry = true; set_count = 0 }

abbrev pool : Dict EndpointQos
pool = (0, dry_endpoint) ∷ (1, dry_endpoint) ∷ []

set_tc_lem_run :
    let (e', ok, calls) = set_tc picky low_latency dry_endpoint in
    (((ok ≡ true) × (e'.current ≡ low_latency) × (e'.set_count ≡ 1) × (low_latency ≢ cxi_storage))
      ⊎ ((ok ≡ false) × (e' ≡ dry_endpoint)))
    × (length calls ≤ 1)
    × ((low_latency ≢ cxi_storage) ⊎ (calls ≡ []))
set_tc_lem_run = set_tc_lem picky low_latency dry_endpoint

apply_for_gain_lem_run :
    let (d', tc) = apply_for_gain picky 1 (frac 55 100) pool in
    (f : EndpointQos) × (lookup 1 d' ≡ some f)
    × (f.current ≡ gain_to_cxi_tc (frac 55 100))
    × (tc ≡ gain_to_cxi_tc (frac 55 100))
    × ((j : ℕ) → j ≢ 1 → lookup j d' ≡ lookup j pool)
apply_for_gain_lem_run = apply_for_gain_lem picky 1 (frac 55 100) pool dry_endpoint refl (inl refl)
