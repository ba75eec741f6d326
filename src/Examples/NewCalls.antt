-- ===== src/Examples/NewCalls.antt =====
-- `goTrampolineNew` and `enterWasm` at concrete callbacks.
use wasmtime_go.Base.{ℕ, ◌≡◌, refl, false, none, some, List, [], ◌∷◌, arith, get_elem?}
use wasmtime_go.Go.Value.{Tag, Payload, CVal, text}
use wasmtime_go.Go.Outcome.{Exec, ok, panic, return, throw}
use wasmtime_go.Kind.{i32}
use wasmtime_go.World.{World, Host}
use wasmtime_go.Store.{Storelike, get_data_in_store}
use wasmtime_go.Enter.{Ran, enter_wasm}
use wasmtime_go.Trampoline.Caller.{opened}
use wasmtime_go.Trampoline.New.{go_trampoline_new}
use wasmtime_go.Trampoline.New.Replies.{go_trampoline_new_reused_trap}
use wasmtime_go.Trampoline.New.Results.{
  complaint, go_trampoline_new_results, go_trampoline_new_wrong_results,
}
use wasmtime_go.Trampoline.New.Propagation.{run_host, enter_wasm-go_trampoline_new_panicked}
use wasmtime_go.Examples.{
  world, world_with, quiet_data, panicked_data, new_entry, found_new, found_spent, new_host,
  own_trap, spent_trap,
}

abbrev arg : CVal
arg = record { kind = Tag.i32; of = Payload.i32 3 }

abbrev booms : Host
booms = new_host (λ params. throw (text "boom"))

abbrev traps : Host
traps = new_host (λ params. return ([], some 0))

-- The identity on one i32.
abbrev echoes : Host
echoes = new_host (λ params. return (params, none))

abbrev during : World
during = opened world 0

abbrev spent_world : World
spent_world = world_with spent_trap quiet_data

go_trampoline_new_reused_trap_example :
    (u : World) × (go_trampoline_new traps 0 1 (arg ∷ []) spent_world
      ≡ (ok (record { trap = none; written = [] }), u))
    × (u.store_data ≡ quiet_data ∷ [])
go_trampoline_new_reused_trap_example =
    go_trampoline_new_reused_trap traps spent_world 0 1 0 (arg ∷ []) new_entry refl found_spent
      (opened spent_world 0) quiet_data refl [] 0 false refl refl

go_trampoline_new_results_example :
    (u : World) × (go_trampoline_new echoes 0 1 (arg ∷ []) world
      ≡ (ok (record { trap = none; written = some arg ∷ [] }), u))
    × (u.store_data ≡ quiet_data ∷ [])
go_trampoline_new_results_example =
    go_trampoline_new_results echoes world 0 1 0 (arg ∷ []) new_entry refl found_new during
      (arg ∷ []) refl refl refl

go_trampoline_new_wrong_results_example :
    (p : ℕ) × (u : World) × (go_trampoline_new echoes 0 1 (arg ∷ arg ∷ []) world
      ≡ (ok (record { trap = some p; written = [] }), u))
    × (get_elem? u.store_data 0
        ≡ some (record quiet_data { last_panic = text (complaint (arg ∷ arg ∷ []) (i32 ∷ [])) }))
go_trampoline_new_wrong_results_example =
    go_trampoline_new_wrong_results echoes world 0 1 0 (arg ∷ arg ∷ []) new_entry refl found_new
      during (arg ∷ arg ∷ []) refl refl quiet_data refl (λ e. absurd (ground arith))

enter_wasm-go_trampoline_new_panicked_example :
    (u : World) × (enter_wasm (Storelike.store 0) (run_host booms 0 1 (arg ∷ [])) world
      ≡ (panic (text "boom"), u))
    × (get_elem? u.store_data 0 ≡ some quiet_data)
enter_wasm-go_trampoline_new_panicked_example =
    enter_wasm-go_trampoline_new_panicked booms world 0 1 0 (arg ∷ []) new_entry refl found_new
      during quiet_data refl (text "boom") refl refl

abbrev failing : Exec World (Ran (List CVal))
failing = return (record { trap = none; error = some 8; output = [] })

abbrev panicked_world : World
panicked_world = world_with own_trap panicked_data

leads_quiet : get_data_in_store (Storelike.store 0) world ≡ (ok (some 0), world)
unfolding get_data_in_store
leads_quiet = refl

leads_panicked :
    get_data_in_store (Storelike.store 0) panicked_world ≡ (ok (some 0), panicked_world)
unfolding get_data_in_store
leads_panicked = refl
