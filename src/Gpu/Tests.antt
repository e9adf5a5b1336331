-- ===== src/Gpu/Tests.antt =====
-- The theorems on tempo/gpu_driven.py at a small endpoint.
use working_tempo.Base.{
  ℕ, ◌+◌, ◌/◌, ◌%◌, ◌<◌, ◌≡◌, ◌≢◌, ◌⊎◌, refl, true, false, none, some, List, [], ◌∷◌,
}
use working_tempo.Base.Dict.{lookup}
use working_tempo.Gpu.{
  Descriptor, GpuEndpoint, Libraries, entry, again, failed, new_gpu_endpoint, register_transfer,
  trigger_from_gpu, wait_completion, token,
}
use working_tempo.Gpu.Token.{token_lem}
use working_tempo.Gpu.Registry.{
  IsRegistry, Call, register, trigger, wait, drop_handle, run, run-IsRegistry,
}
use working_tempo.Gpu.Wait.{
  IsDone, wait_completion_lem, wait_completion-context, trigger_from_gpu_lem,
}

abbrev libs : Libraries
libs = record { libfabric = true; cudart = true; memcpy = λ t. true }

abbrev moved : Descriptor
moved = record {
  handle_id = 3;
  src_ptr = 100;
  dest_addr = 7;
  length = 4096;
  tc = 4;
  in_flight = false;
  done = false;
  t_triggered = 0;
  t_complete = 0;
}

abbrev shorter : Descriptor
shorter = record moved { length = 4096; src_ptr = 50 }

abbrev fresh : GpuEndpoint
fresh = new_gpu_endpoint 4 true true

abbrev two : GpuEndpoint
two = (register_transfer 2 8 20 none (register_transfer 1 7 10 none fresh).0).0

abbrev calls : List (Call libs)
calls = register 1 7 10 none ∷ trigger 0 5 ∷ wait (again ∷ entry 0 9 ∷ []) 0 ∷ drop_handle 0 ∷ []

token_lem_run :
    let t = token moved in
    (t < 18446744073709551616)
    × (t / 281474976710656 ≡ 3)
    × (t / 17592186044416 % 16 ≡ 4)
    × (t % 4294967296 ≡ 4096)
    × (t / 4294967296 % 65536 ≡ 16384)
token_lem_run = token_lem moved

run-IsRegistry_example :
    let s = run libs calls fresh in
    let (t, handle) = register_transfer 2 8 30 (some 6) s in
    IsRegistry s
    × (lookup handle s.descriptors ≡ none)
    × (d : Descriptor) × (lookup handle t.descriptors ≡ some d)
    × (d.handle_id ≡ handle)
    × (d.length ≡ 30)
    × (d.done ≡ false)
    × ((j : ℕ) → j ≢ handle → lookup j t.descriptors ≡ lookup j s.descriptors)
run-IsRegistry_example = run-IsRegistry libs calls 4 true true 2 8 30 (some 6)

wait_completion_lem_example :
    let (t, ok) = wait_completion libs (again ∷ failed ∷ []) 1 two in
    ((ok ≡ true) × IsDone libs 1 t) ⊎ ((ok ≡ false) × (t ≡ two))
wait_completion_lem_example = wait_completion_lem libs (again ∷ failed ∷ []) 1 two

-- Transfer 0 is waited for, and the entry is that of transfer 1.
wait_completion-context_run :
    ((wait_completion libs (entry 1 9 ∷ []) 0 two).1 ≡ true)
    × (wait_completion libs (entry 1 9 ∷ []) 0 two ≡ wait_completion libs (entry 0 9 ∷ []) 0 two)
unfolding register_transfer
wait_completion-context_run = wait_completion-context libs 0 1 0 9 [] two refl refl refl refl

trigger_from_gpu_lem_run :
    let (t, ok) = trigger_from_gpu libs 1 5 two in
    ((ok ≡ true)
      × (d e : Descriptor) × (lookup 1 two.descriptors ≡ some d)
      × (two.doorbell_mapped ≡ true)
      × (true ≡ true)
      × (libs.memcpy (token d) ≡ true)
      × (lookup 1 t.descriptors ≡ some e)
      × (e.in_flight ≡ true)
      × (t.doorbell_triggers ≡ two.doorbell_triggers + 1))
    ⊎ ((ok ≡ false)
        × (t.doorbell_triggers ≡ two.doorbell_triggers)
        × (lookup 1 two.descriptors ≡ none → t ≡ two))
trigger_from_gpu_lem_run = trigger_from_gpu_lem libs 1 5 two
