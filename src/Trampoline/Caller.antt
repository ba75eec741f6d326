-- ===== src/Trampoline/Caller.antt =====
-- The `Caller` object of one run of a trampoline: it leads to the store that wasm runs in.
use wasmtime_go.Base.{ℕ, ◌≡◌, refl, Option, some, [], ◌∷◌, ◌++◌, length, get_elem?-append_length}
use wasmtime_go.Go.Outcome.{ok}
use wasmtime_go.World.{World, FuncNewEntry}
use wasmtime_go.Store.{Storelike, get_data_in_store, get_func_new}
use wasmtime_go.Store.Finds.{Finds-get, get-Finds}
use wasmtime_go.Trampoline.{open_caller}

-- The state after `caller := &Caller{ptr: callerPtr}`.
abbrev pub opened : World → ℕ → World
opened w env = record w { callers = w.callers ++ some env ∷ [] }

pub open_caller_lem :
    (env : ℕ) (w : World) → open_caller env w ≡ (ok (length w.callers), opened w env)
unfolding open_caller
open_caller_lem env w = refl

pub get_data_in_store-opened :
    (env : ℕ) (w : World)
    → get_data_in_store (Storelike.caller (length w.callers)) (opened w env)
      ≡ (ok (w.stores.entries env), opened w env)
unfolding get_data_in_store
get_data_in_store-opened env w = rw (get_elem?-append_length w.callers (some env))

pub get_func_new-opened :
    (env idx : ℕ) (ptr : Option ℕ) (entry : FuncNewEntry) (w : World)
    → get_func_new ptr idx w ≡ (ok (some entry), w)
    → get_func_new ptr idx (opened w env) ≡ (ok (some entry), opened w env)
get_func_new-opened env idx ptr entry w h =
    Finds-get (opened w env) ptr idx entry (get-Finds w ptr idx entry h)
