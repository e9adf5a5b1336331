-- ===== src/Gpu.antt =====
-- `TransferDescriptor`, `GpuDrivenEndpoint` and `GpuDrivenPool` of tempo/gpu_driven.py: the registry of
-- transfers, their triggers and their completion. An endpoint is one that `open` has dealt with.
-- Times are microseconds of the clock and arguments; libfabric and the CUDA runtime are parameters.
pub mod Token
pub mod Registry
pub mod Wait
mod Tests
use working_tempo.Base.{
  ℕ, zero, suc, ◌+◌, ◌-◌, ◌*◌, ◌%◌, Bool, true, false, not, ◌&&◌, ◌||◌, Option, none, some, List,
  [], ◌∷◌, if◌then◌else◌, leb,
}
use working_tempo.Base.Dict.{Dict, lookup, insert, erase}
use working_tempo.Base.Frac
use working_tempo.Base.Frac.{Frac, whole}

pub record Descriptor : Type 0 where
  pub handle_id : ℕ
  pub src_ptr : ℕ
  pub dest_addr : ℕ
  pub length : ℕ
  pub tc : ℕ
  pub in_flight : Bool
  pub done : Bool
  pub t_triggered : ℕ
  pub t_complete : ℕ

pub record GpuEndpoint : Type 0 where
  pub default_tc : ℕ
  pub doorbell_mapped : Bool
  pub has_ep : Bool
  pub has_cq : Bool
  pub descriptors : Dict Descriptor
  pub next_handle : ℕ
  pub doorbell_triggers : ℕ
  pub cpu_fallback_sends : ℕ
  pub completions : ℕ
  pub bytes_sent : ℕ
  pub avg_latency_us : Frac

-- Are the libraries loaded, and does `cudaMemcpyAsync` answer 0 for the token?
pub record Libraries : Type 0 where
  pub libfabric : Bool
  pub cudart : Bool
  pub memcpy : ℕ → Bool

-- What CPU path was taken: `fi_inject` for a small message and `fi_send` for others. Their answers
-- are only logged.
pub data Sent : Type 0 where
  nothing injected sent : Sent

-- One call of `fi_cq_read` that the deadline allows: an entry with the context of its send, at a
-- time, -FI_EAGAIN, or another error.
pub data Poll : Type 0 where
  entry : ℕ → ℕ → Poll
  again failed : Poll

-- `__init__`: nothing is registered.
abbrev pub new_gpu_endpoint : ℕ → Bool → Bool → GpuEndpoint
new_gpu_endpoint tc doorbell fabric = record {
  default_tc = tc;
  doorbell_mapped = doorbell;
  has_ep = fabric;
  has_cq = fabric;
  descriptors = [];
  next_handle = 0;
  doorbell_triggers = 0;
  cpu_fallback_sends = 0;
  completions = 0;
  bytes_sent = 0;
  avg_latency_us = whole 0;
}

unfoldable pub register_transfer : ℕ → ℕ → ℕ → Option ℕ → GpuEndpoint → GpuEndpoint × ℕ
register_transfer src dest length tc s =
    let d : Descriptor = record {
      handle_id = s.next_handle;
      src_ptr = src;
      dest_addr = dest;
      length = length;
      tc = elim tc [ some t ↦ t | none ↦ s.default_tc ];
      in_flight = false;
      done = false;
      t_triggered = 0;
      t_complete = 0;
    } in
    (
      record s {
        descriptors = insert s.next_handle d s.descriptors;
        next_handle = s.next_handle + 1;
      },
      s.next_handle,
    )

-- `token_val`: three fields that share no bit, so that `|` is a sum. The factors are 2 to the powers
-- 48 and 44.
unfoldable pub token : Descriptor → ℕ
token d = d.handle_id % 65536 * 281474976710656 + d.tc % 8 * 17592186044416 + d.length % 4294967296

-- `INJECT_THRESHOLD`
abbrev pub inject_threshold : ℕ
inject_threshold = 4096

module _ (libs : Libraries) where
  unfoldable pub trigger_from_cpu : ℕ → ℕ → GpuEndpoint → GpuEndpoint × Sent
  trigger_from_cpu handle now s = elim (lookup handle s.descriptors) [
    | none ↦ (s, nothing)
    | some d ↦
        if not libs.libfabric || not s.has_ep
        then (
          record s { descriptors = insert handle (record d { done = true }) s.descriptors },
          nothing,
        )
        else (
          record s {
            descriptors =
                insert handle (record d { t_triggered = now; in_flight = true }) s.descriptors;
            cpu_fallback_sends = s.cpu_fallback_sends + 1;
          },
          if leb d.length inject_threshold then injected else sent,
        )
  ]

  -- `_doorbell_trigger`
  unfoldable pub doorbell_trigger : ℕ → Descriptor → ℕ → GpuEndpoint → GpuEndpoint × Bool
  unfolding token
  doorbell_trigger handle d now s =
      if not libs.cudart
      then (s, false)
      else if libs.memcpy (token d)
      then (
        record s {
          descriptors =
              insert handle (record d { in_flight = true; t_triggered = now }) s.descriptors;
          doorbell_triggers = s.doorbell_triggers + 1;
        },
        true,
      )
      else (s, false)

  unfoldable pub trigger_from_gpu : ℕ → ℕ → GpuEndpoint → GpuEndpoint × Bool
  unfolding trigger_from_cpu doorbell_trigger
  trigger_from_gpu handle now s = elim (lookup handle s.descriptors) [
    | none ↦ (s, false)
    | some d ↦
        if s.doorbell_mapped && libs.cudart
        then doorbell_trigger handle d now s
        else ((trigger_from_cpu handle now s).0, false)
  ]

  -- `old + (lat_us - old) / n`, as the mean of `n - 1` times `old` and one `lat_us`.
  unfoldable pub running_mean : Frac → ℕ → ℕ → Frac
  running_mean old lat n = Frac.div (Frac.add (Frac.mul old (whole (n - 1))) (whole lat)) (whole n)

  -- An entry has arrived.
  unfoldable pub complete : ℕ → Descriptor → ℕ → GpuEndpoint → GpuEndpoint
  unfolding running_mean
  complete handle d now s =
      let n = s.completions + 1 in
      record s {
        descriptors = insert handle (record d { done = true; t_complete = now }) s.descriptors;
        avg_latency_us = running_mean s.avg_latency_us (now - d.t_triggered) n;
        completions = n;
        bytes_sent = s.bytes_sent + d.length;
      }

  -- The loop of `wait_completion`, over the polls before the deadline.
  unfoldable pub wait_loop : List Poll → ℕ → Descriptor → GpuEndpoint → GpuEndpoint × Bool
  unfolding complete
  wait_loop [] handle d s = (s, false)
  wait_loop (entry context now ∷ polls) handle d s = (complete handle d now s, true)
  wait_loop (again ∷ polls) handle d s = wait_loop polls handle d s
  wait_loop (failed ∷ polls) handle d s = (s, false)

  unfoldable pub wait_completion : List Poll → ℕ → GpuEndpoint → GpuEndpoint × Bool
  unfolding wait_loop
  wait_completion polls handle s = elim (lookup handle s.descriptors) [
    | none ↦ (s, false)
    | some d ↦
        if d.done
        then (s, true)
        else if not libs.libfabric || not s.has_cq
        then (
          record s { descriptors = insert handle (record d { done = true }) s.descriptors },
          true,
        )
        else wait_loop polls handle d s
  ]

unfoldable pub deregister : ℕ → GpuEndpoint → GpuEndpoint
deregister handle s = record s { descriptors = erase handle s.descriptors }

-- `GpuDrivenPool`: the endpoints by NIC. A call of a NIC that is not there does nothing.
abbrev pub GpuPool : Type 0
GpuPool = Dict GpuEndpoint

module _ (libs : Libraries) where
  unfoldable pub pool_register : ℕ → ℕ → ℕ → ℕ → Option ℕ → GpuPool → GpuPool × Option ℕ
  unfolding register_transfer
  pool_register nic src dest length tc pool = elim (lookup nic pool) [
    | none ↦ (pool, none)
    | some s ↦
        let (s', handle) = register_transfer src dest length tc s in
        (insert nic s' pool, some handle)
  ]

  unfoldable pub pool_trigger : ℕ → ℕ → ℕ → GpuPool → GpuPool × Bool
  unfolding trigger_from_gpu
  pool_trigger nic handle now pool = elim (lookup nic pool) [
    | none ↦ (pool, false)
    | some s ↦ let (s', ok) = trigger_from_gpu libs handle now s in (insert nic s' pool, ok)
  ]

  unfoldable pub pool_wait : List Poll → ℕ → ℕ → GpuPool → GpuPool × Bool
  unfolding wait_completion
  pool_wait polls nic handle pool = elim (lookup nic pool) [
    | none ↦ (pool, false)
    | some s ↦ let (s', ok) = wait_completion libs polls handle s in (insert nic s' pool, ok)
  ]

  unfoldable pub pool_deregister : ℕ → ℕ → GpuPool → GpuPool
  unfolding deregister
  pool_deregister nic handle pool = elim (lookup nic pool) [
    | none ↦ pool
    | some s ↦ insert nic (deregister handle s) pool
  ]
