-- ===== src/Trampoline/New/Propagation.antt =====
-- A host function beneath `enterWasm`: wasm that calls `goTrampolineNew`, and ends with the error that
-- wasmtime makes of the trap that it gets.
use wasmtime_go.Base.{ℕ, ◌≡◌, refl, false, Option, none, some, List, [], get_elem?}
use wasmtime_go.Go.Value.{CVal, Any, nil}
use wasmtime_go.Go.Outcome.{Exec, ok, panic, return, ◌>>=◌}
use wasmtime_go.World.{World, Host, FuncNewEntry, StoreData}
use wasmtime_go.Store.{Storelike, get_data_in_store, get_func_new}
use wasmtime_go.Enter.{Ran, is_nil, enter_wasm}
use wasmtime_go.Enter.Propagation.{enter_wasm_panicked}
use wasmtime_go.Trampoline.New.{go_trampoline_new}
use wasmtime_go.Trampoline.New.Replies.{Calls, go_trampoline_new_panicked}

-- A run of wasm that does no more than to call one host function.
abbrev pub run_host : Host → ℕ → ℕ → List CVal → Exec World (Ran (List (Option CVal)))
run_host host env idx args = do
  reply ← go_trampoline_new host env idx args
  return (record { trap = none; error = reply.trap; output = reply.written })

module _ (host : Host) (w : World) (caller_env env d : ℕ) (args : List CVal) (entry : FuncNewEntry)
    (attached : w.stores.entries caller_env ≡ some d)
    (found : get_func_new (some d) env w ≡ (ok (some entry), w)) (t : World) (sd : StoreData)
    (here : get_elem? t.store_data d ≡ some sd) where
  -- If `enterWasm` is called through a `*Store` that is in the table, with wasm that does no more than to
  -- call one function of `NewFunc` or `Linker.FuncNew`, whose env leads to its entry in that state, and
  -- the callback panics, with anything but nil, and leaves the store's data in place, then `enterWasm`
  -- panics with the same value, and the store holds no panic afterwards.
  pub enter_wasm-go_trampoline_new_panicked :
      (v : Any)
      → is_nil v ≡ false
      → Calls host w caller_env env d args entry attached found t (panic v)
      → (u : World) × (enter_wasm (Storelike.store caller_env) (run_host host caller_env env args) w
          ≡ (panic v, u))
        × (get_elem? u.store_data d ≡ some (record sd { last_panic = nil }))
  unfolding get_data_in_store
  enter_wasm-go_trampoline_new_panicked v real e =
      let (p, u, done, kept) =
        go_trampoline_new_panicked host w caller_env env d args entry attached found t sd here v
          real e in
      enter_wasm_panicked (Storelike.store caller_env) (run_host host caller_env env args) w u d
        (record { trap = none; error = some p; output = [] }) (record sd { last_panic = v })
        (rw attached refl) (rw done refl) kept real
