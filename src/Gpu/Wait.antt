-- ===== src/Gpu/Wait.antt =====
-- What triggers and waits of `GpuDrivenEndpoint` (tempo/gpu_driven.py) answer.
use working_tempo.Base.{
  ℕ, ◌+◌, ◌≡◌, ◌⊎◌, refl, inl, inr, true, false, ◌&&◌, none, some, List, [], ◌∷◌, arith, Bool-cases,
  Option-cases,
}
use working_tempo.Base.Dict.{lookup, insert, lookup-insert_self}
use working_tempo.Gpu.{
  Descriptor, GpuEndpoint, Libraries, Poll, entry, again, failed, trigger_from_gpu,
  trigger_from_cpu, doorbell_trigger, wait_completion, wait_loop, complete, token,
}

module _ (libs : Libraries) where
  -- The descriptor under the handle is done.
  abbrev pub IsDone : ℕ → GpuEndpoint → Type 0
  IsDone handle s = (d : Descriptor) × (lookup handle s.descriptors ≡ some d) × (d.done ≡ true)

  wait_loop_lem :
      (polls : List Poll) (handle : ℕ) (d : Descriptor) (s : GpuEndpoint)
      → let (t, ok) = wait_loop libs polls handle d s in
        ((ok ≡ true) × IsDone handle t) ⊎ ((ok ≡ false) × (t ≡ s))
  unfolding wait_loop complete
  wait_loop_lem [] handle d s = inr (refl, refl)
  wait_loop_lem (entry context now ∷ polls) handle d s =
      inl (refl, (_, lookup-insert_self handle _ s.descriptors, refl))
  wait_loop_lem (again ∷ polls) handle d s = wait_loop_lem polls handle d s
  wait_loop_lem (failed ∷ polls) handle d s = inr (refl, refl)

  -- What a wait does: nothing, or it marks the descriptor, or it reads the queue.
  pub wait_completion-cases :
      (polls : List Poll) (handle : ℕ) (s : GpuEndpoint)
      → (wait_completion libs polls handle s ≡ (s, false))
        ⊎ ((d : Descriptor) × (lookup handle s.descriptors ≡ some d)
            × (((wait_completion libs polls handle s ≡ (s, true)) × (d.done ≡ true))
                ⊎ (wait_completion libs polls handle s ≡ (
                  record s { descriptors = insert handle (record d { done = true }) s.descriptors },
                  true,
                ))
                ⊎ (wait_completion libs polls handle s ≡ wait_loop libs polls handle d s)))
  unfolding wait_completion
  wait_completion-cases polls handle s = elim (Option-cases (lookup handle s.descriptors)) [
    | inl unknown ↦ inl (ground (arith, unknown))
    | inr (d, found) ↦ elim (Bool-cases d.done) [
      | inl finished ↦ inr (d, found, inl (ground (arith, found, finished), finished))
      | inr pending ↦ inr (d, found, inr (ground (arith, found, pending)))
    ]
  ]

  -- `wait_completion` answers True only with the descriptor of the handle marked as done; where it
  -- answers False, for an unknown handle, an error of the queue or the deadline, it changes nothing.
  pub wait_completion_lem :
      (polls : List Poll) (handle : ℕ) (s : GpuEndpoint)
      → let (t, ok) = wait_completion libs polls handle s in
        ((ok ≡ true) × IsDone handle t) ⊎ ((ok ≡ false) × (t ≡ s))
  wait_completion_lem polls handle s = elim (wait_completion-cases polls handle s) [
    | inl unknown ↦ rw unknown (inr (refl, refl))
    | inr (d, found, inl (finished, done)) ↦ rw finished (inl (refl, (d, found, done)))
    | inr (d, found, inr (inl simulated)) ↦
        rw simulated (inl (refl, (_, lookup-insert_self handle _ s.descriptors, refl)))
    | inr (d, found, inr (inr real)) ↦ rw real (wait_loop_lem polls handle d s)
  ]

  -- A wait takes the entry of any other transfer for its own: where the queue is read, the first
  -- entry that arrives completes the handle that waits, whatever its context is.
  pub wait_completion-context :
      (handle context other now : ℕ) (polls : List Poll) (s : GpuEndpoint) {d : Descriptor}
      → lookup handle s.descriptors ≡ some d
      → d.done ≡ false
      → libs.libfabric ≡ true
      → s.has_cq ≡ true
      → ((wait_completion libs (entry context now ∷ polls) handle s).1 ≡ true)
        × (wait_completion libs (entry context now ∷ polls) handle s
            ≡ wait_completion libs (entry other now ∷ polls) handle s)
  unfolding wait_completion wait_loop
  wait_completion-context handle context other now polls s found pending lib cq =
      (ground (arith, found, pending, lib, cq), ground (arith, found, pending, lib, cq))

  -- `trigger_from_gpu` answers True exactly where the handle is known, the doorbell is mapped, the CUDA
  -- runtime is there and takes the token of the descriptor; it is then in flight and counted.
  pub trigger_from_gpu_lem :
      (handle now : ℕ) (s : GpuEndpoint)
      → let (t, ok) = trigger_from_gpu libs handle now s in
        ((ok ≡ true)
          × (d e : Descriptor) × (lookup handle s.descriptors ≡ some d)
          × (s.doorbell_mapped ≡ true)
          × (libs.cudart ≡ true)
          × (libs.memcpy (token d) ≡ true)
          × (lookup handle t.descriptors ≡ some e)
          × (e.in_flight ≡ true)
          × (t.doorbell_triggers ≡ s.doorbell_triggers + 1))
        ⊎ ((ok ≡ false)
            × (t.doorbell_triggers ≡ s.doorbell_triggers)
            × (lookup handle s.descriptors ≡ none → t ≡ s))
  unfolding trigger_from_gpu doorbell_trigger trigger_from_cpu
  trigger_from_gpu_lem handle now s = elim (Option-cases (lookup handle s.descriptors)) [
    | inl unknown ↦ rw (unknown, trigger_from_gpu) (inr (refl, refl, λ _. refl))
    | inr (d, found) ↦ elim (Bool-cases (s.doorbell_mapped && libs.cudart)) [
      | inr cpu ↦ inr (ground (arith, found, cpu))
      | inl bell ↦ elim (Bool-cases (libs.memcpy (token d))) [
        | inr refused ↦ inr (ground (arith, found, bell, refused))
        | inl written ↦
            let e : Descriptor = record d { in_flight = true; t_triggered = now } in
            let self = lookup-insert_self handle e s.descriptors in
            inl (
              ground (arith, found, bell, written),
              d,
              e,
              found,
              ground (arith, bell),
              ground (arith, bell),
              written,
              ground (arith, found, bell, written, self),
              refl,
              ground (arith, found, bell, written),
            )
      ]
    ]
  ]
