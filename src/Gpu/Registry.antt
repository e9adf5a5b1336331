-- ===== src/Gpu/Registry.antt =====
-- The registry of transfers of `GpuDrivenEndpoint` (tempo/gpu_driven.py) over any sequence of calls.
use working_tempo.Base.{
  ℕ, ◌+◌, ◌<◌, ◌≡◌, ◌≢◌, refl, inl, inr, Bool, true, false, not, ◌&&◌, ◌||◌, Option, none, some,
  List, [], ◌∷◌, arith, All, Bool-cases, Option-cases,
}
use working_tempo.Base.Dict.{
  Dict, lookup, insert, Keyed, insert-Keyed, erase-Keyed, All-insert, All-erase, All-lookup,
  lookup-insert_self, lookup-insert_ne,
}
use working_tempo.Gpu.Wait.{wait_completion-cases}
use working_tempo.Gpu.{
  Descriptor, GpuEndpoint, Libraries, Poll, new_gpu_endpoint, register_transfer, trigger_from_cpu,
  trigger_from_gpu, doorbell_trigger, wait_completion, wait_loop, complete, entry, again, failed,
  deregister, token,
}

-- A handle names the descriptor that it was given for, once, and lies below the next one.
pub record IsRegistry (s : GpuEndpoint) : Type 0 where
  pub keyed : Keyed s.descriptors
  pub named : All (λ p. p.1.handle_id ≡ p.0) s.descriptors
  pub below : All (λ p. p.0 < s.next_handle) s.descriptors

below-lookup : (n : ℕ) (ds : Dict Descriptor) → All (λ p. p.0 < n) ds → lookup n ds ≡ none
below-lookup n [] h = refl
below-lookup n (p ∷ ds) h = ground (arith, h.0, below-lookup n ds h.1)

below-suc : (n : ℕ) (ds : Dict Descriptor) → All (λ p. p.0 < n) ds → All (λ p. p.0 < n + 1) ds
below-suc n [] h = tt
below-suc n (p ∷ ds) h = (omega (arith, h.0), below-suc n ds h.1)

-- The descriptors with one of them changed, under its handle.
update-IsRegistry :
    (handle : ℕ) (d e : Descriptor) (s t : GpuEndpoint)
    → lookup handle s.descriptors ≡ some d
    → e.handle_id ≡ d.handle_id
    → t.descriptors ≡ insert handle e s.descriptors
    → t.next_handle ≡ s.next_handle
    → IsRegistry s
    → IsRegistry t
update-IsRegistry handle d e s t found same ds next h =
    let name : d.handle_id ≡ handle = All-lookup _ handle d s.descriptors h.named found in
    let low : handle < s.next_handle = All-lookup _ handle d s.descriptors h.below found in
    record {
      keyed = rw ds (insert-Keyed handle e s.descriptors h.keyed);
      named = rw ds (All-insert _ handle e s.descriptors (rw same name) h.named);
      below = rw (ds, next) (All-insert _ handle e s.descriptors low h.below);
    }

register_transfer-IsRegistry :
    (src dest length : ℕ) (tc : Option ℕ) (s : GpuEndpoint)
    → IsRegistry s
    → IsRegistry (register_transfer src dest length tc s).0
unfolding register_transfer
register_transfer-IsRegistry src dest length tc s h = record {
  keyed = insert-Keyed s.next_handle _ s.descriptors h.keyed;
  named = All-insert _ s.next_handle _ s.descriptors refl h.named;
  below =
      All-insert _ s.next_handle _ s.descriptors (omega arith)
        (below-suc s.next_handle s.descriptors h.below);
}

deregister-IsRegistry :
    (handle : ℕ) (s : GpuEndpoint) → IsRegistry s → IsRegistry (deregister handle s)
unfolding deregister
deregister-IsRegistry handle s h = record {
  keyed = erase-Keyed handle s.descriptors h.keyed;
  named = All-erase _ handle s.descriptors h.named;
  below = All-erase _ handle s.descriptors h.below;
}

module _ (libs : Libraries) where
  trigger_from_cpu-IsRegistry :
      (handle now : ℕ) (s : GpuEndpoint)
      → IsRegistry s
      → IsRegistry (trigger_from_cpu libs handle now s).0
  unfolding trigger_from_cpu
  trigger_from_cpu-IsRegistry handle now s h = elim (Option-cases (lookup handle s.descriptors)) [
    | inl unknown ↦ rw (unknown, trigger_from_cpu) h
    | inr (d, found) ↦ elim (Bool-cases (not libs.libfabric || not s.has_ep)) [
      | inl simulated ↦
          rw (found, trigger_from_cpu, simulated)
            (update-IsRegistry handle d (record d { done = true }) s _ found refl refl refl h)
      | inr real ↦
          rw (found, trigger_from_cpu, real)
            (update-IsRegistry handle d (record d { t_triggered = now; in_flight = true }) s _ found
              refl refl refl h)
    ]
  ]

  doorbell_trigger-IsRegistry :
      (handle : ℕ) (d : Descriptor) (now : ℕ) (s : GpuEndpoint)
      → lookup handle s.descriptors ≡ some d
      → IsRegistry s
      → IsRegistry (doorbell_trigger libs handle d now s).0
  unfolding doorbell_trigger
  doorbell_trigger-IsRegistry handle d now s found h = elim (Bool-cases (not libs.cudart)) [
    | inl missing ↦ rw missing h
    | inr there ↦ elim (Bool-cases (libs.memcpy (token d))) [
      | inr refused ↦ rw (there, refused) h
      | inl written ↦
          rw (there, written)
            (update-IsRegistry handle d (record d { in_flight = true; t_triggered = now }) s _ found
              refl refl refl h)
    ]
  ]

  trigger_from_gpu-IsRegistry :
      (handle now : ℕ) (s : GpuEndpoint)
      → IsRegistry s
      → IsRegistry (trigger_from_gpu libs handle now s).0
  unfolding trigger_from_gpu
  trigger_from_gpu-IsRegistry handle now s h = elim (Option-cases (lookup handle s.descriptors)) [
    | inl unknown ↦ rw (unknown, trigger_from_gpu) h
    | inr (d, found) ↦ elim (Bool-cases (s.doorbell_mapped && libs.cudart)) [
      | inl bell ↦
          rw (found, trigger_from_gpu, bell) (doorbell_trigger-IsRegistry handle d now s found h)
      | inr cpu ↦ rw (found, trigger_from_gpu, cpu) (trigger_from_cpu-IsRegistry handle now s h)
    ]
  ]

  wait_loop-IsRegistry :
      (polls : List Poll) (handle : ℕ) (d : Descriptor) (s : GpuEndpoint)
      → lookup handle s.descriptors ≡ some d
      → IsRegistry s
      → IsRegistry (wait_loop libs polls handle d s).0
  unfolding wait_loop complete
  wait_loop-IsRegistry [] handle d s found h = h
  wait_loop-IsRegistry (entry context now ∷ polls) handle d s found h =
      update-IsRegistry handle d (record d { done = true; t_complete = now }) s _ found refl refl
        refl h
  wait_loop-IsRegistry (again ∷ polls) handle d s found h =
      wait_loop-IsRegistry polls handle d s found h
  wait_loop-IsRegistry (failed ∷ polls) handle d s found h = h

  wait_completion-IsRegistry :
      (polls : List Poll) (handle : ℕ) (s : GpuEndpoint)
      → IsRegistry s
      → IsRegistry (wait_completion libs polls handle s).0
  wait_completion-IsRegistry polls handle s h = elim (wait_completion-cases libs polls handle s) [
    | inl unknown ↦ rw unknown h
    | inr (d, found, inl (finished, _)) ↦ rw finished h
    | inr (d, found, inr (inl simulated)) ↦
        rw simulated
          (update-IsRegistry handle d (record d { done = true }) s _ found refl refl refl h)
    | inr (d, found, inr (inr real)) ↦ rw real (wait_loop-IsRegistry polls handle d s found h)
  ]

  -- The calls that change an endpoint.
  pub data Call : Type 0 where
    register : ℕ → ℕ → ℕ → Option ℕ → Call
    trigger cpu_trigger : ℕ → ℕ → Call
    wait : List Poll → ℕ → Call
    drop_handle : ℕ → Call

  abbrev call : Call → GpuEndpoint → GpuEndpoint
  call (register src dest length tc) s = (register_transfer src dest length tc s).0
  call (trigger handle now) s = (trigger_from_gpu libs handle now s).0
  call (cpu_trigger handle now) s = (trigger_from_cpu libs handle now s).0
  call (wait polls handle) s = (wait_completion libs polls handle s).0
  call (drop_handle handle) s = deregister handle s

  abbrev pub run : List Call → GpuEndpoint → GpuEndpoint
  run [] s = s
  run (c ∷ cs) s = run cs (call c s)

  call-IsRegistry : (c : Call) (s : GpuEndpoint) → IsRegistry s → IsRegistry (call c s)
  call-IsRegistry (register src dest length tc) s h =
      register_transfer-IsRegistry src dest length tc s h
  call-IsRegistry (trigger handle now) s h = trigger_from_gpu-IsRegistry handle now s h
  call-IsRegistry (cpu_trigger handle now) s h = trigger_from_cpu-IsRegistry handle now s h
  call-IsRegistry (wait polls handle) s h = wait_completion-IsRegistry polls handle s h
  call-IsRegistry (drop_handle handle) s h = deregister-IsRegistry handle s h

  run-keeps : (cs : List Call) (s : GpuEndpoint) → IsRegistry s → IsRegistry (run cs s)
  run-keeps [] s h = h
  run-keeps (c ∷ cs) s h = run-keeps cs (call c s) (call-IsRegistry c s h)

  -- Whatever calls an endpoint has seen, each handle is listed once, under its own descriptor, and a
  -- further registration gives a handle that is in no use, with the length asked for, and leaves the
  -- other handles alone.
  pub run-IsRegistry :
      (cs : List Call) (default : ℕ) (doorbell fabric : Bool) (src dest length : ℕ) (tc : Option ℕ)
      → let s = run cs (new_gpu_endpoint default doorbell fabric) in
        let (t, handle) = register_transfer src dest length tc s in
        IsRegistry s
        × (lookup handle s.descriptors ≡ none)
        × (d : Descriptor) × (lookup handle t.descriptors ≡ some d)
        × (d.handle_id ≡ handle)
        × (d.length ≡ length)
        × (d.done ≡ false)
        × ((j : ℕ) → j ≢ handle → lookup j t.descriptors ≡ lookup j s.descriptors)
  unfolding register_transfer
  run-IsRegistry cs default doorbell fabric src dest length tc =
      let s = run cs (new_gpu_endpoint default doorbell fabric) in
      let h =
        run-keeps cs (new_gpu_endpoint default doorbell fabric)
          (record { keyed = tt; named = tt; below = tt }) in
      (
        h,
        below-lookup s.next_handle s.descriptors h.below,
        _,
        lookup-insert_self s.next_handle _ s.descriptors,
        refl,
        refl,
        refl,
        λ j ne. lookup-insert_ne j s.next_handle _ s.descriptors ne,
      )
