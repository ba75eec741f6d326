-- ===== src/Call/Panics.antt =====
-- A panic of the embedder beneath `Func.Call`.
use wasmtime_go.Base.{ℕ, ◌≤◌, ◌≡◌, refl, false, some, List, arith, length, ltb, get_elem?}
use wasmtime_go.Go.Value.{CVal, Any, nil}
use wasmtime_go.Go.Outcome.{Exec, ok, panic}
use wasmtime_go.Kind.{FuncType}
use wasmtime_go.World.{World, StoreData}
use wasmtime_go.Store.{Storelike, context}
use wasmtime_go.Store.Finds.{get_data_in_store_store}
use wasmtime_go.Enter.{Ran, is_nil}
use wasmtime_go.Enter.Propagation.{enter_wasm_panicked}
use wasmtime_go.Call.{ready, convert_all, call}

-- If the arguments are no more than the parameters and are converted, and a host function that the
-- wasm code called has left a panic with the store, then `Func.Call` panics with the same value,
-- whatever wasm returned, and the store holds no panic afterwards.
pub call_panicked :
    (env d : ℕ) (ty : FuncType) (run : List CVal → ℕ → Exec World (Ran (List CVal)))
    (args : List Any) (cs : List CVal) (ran : Ran (List CVal)) (w u t : World) (sd : StoreData)
    → length args ≤ length ty.params
    → convert_all ty.params 0 args w ≡ (ok (ready cs), u)
    → u.stores.entries env ≡ some d
    → run cs (length ty.results) u ≡ (ok ran, t)
    → get_elem? t.store_data d ≡ some sd
    → is_nil sd.last_panic ≡ false
    → (v : World) × (call (Storelike.store env) ty run args w ≡ (panic sd.last_panic, v))
      × (get_elem? v.store_data d ≡ some (record sd { last_panic = nil }))
unfolding call context
call_panicked env d ty run args cs ran w u t sd few converted attached runs here panicked =
    let few' : ltb (length ty.params) (length args) ≡ false = ground arith in
    let (v, raised, cleared) =
      enter_wasm_panicked (Storelike.store env) (run cs (length ty.results)) u t d ran sd
        (get_data_in_store_store env d u attached) runs here panicked in
    (v, rw few' (rw converted (rw raised refl)), cleared)
