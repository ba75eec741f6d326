-- ===== src/Store.antt =====
-- store.go: stores, the data that Go keeps for each, and the tables of host functions. A pointer to
-- a `storeData` is an `Option ℕ`, none for nil. The `env` of a store or of a function is the index
-- that wasmtime hands back to the callbacks.
pub mod Index
pub mod Finds
pub mod FuncNew
pub mod FuncWrap
pub mod Lifetime
use wasmtime_go.Base.{
  ℕ, String, Option, none, some, List, [], ◌∷◌, ◌++◌, length, get_elem?, set, ◌==◌, if◌then◌else◌,
}
use wasmtime_go.Base.Word.{shl1, shr1, and1, or1}
use wasmtime_go.Go.Value.{Any, nil, text}
use wasmtime_go.Go.Outcome.{
  Exec, return, throw, gets, modify, or_nil, or_out_of_range, ◌>>=◌, ◌>>◌, zoom,
}
use wasmtime_go.Kind.{FuncType}
use wasmtime_go.Registry
use wasmtime_go.Registry.{Registry}
use wasmtime_go.World.{World, StoreData, FuncNewEntry, FuncWrapEntry, Callback}

abbrev pub in_stores : {A : Type 0} → Exec (Registry ℕ) A → Exec World A
in_stores = zoom (λ w. w.stores) (λ r w. record w { stores = r })

abbrev pub in_engine_new : {A : Type 0} → Exec (Registry FuncNewEntry) A → Exec World A
in_engine_new = zoom (λ w. w.engine_new) (λ r w. record w { engine_new = r })

abbrev pub in_engine_wrap : {A : Type 0} → Exec (Registry FuncWrapEntry) A → Exec World A
in_engine_wrap = zoom (λ w. w.engine_wrap) (λ r w. record w { engine_wrap = r })

-- `&storeData{engine: engine}`
abbrev pub fresh_data : ℕ → StoreData
fresh_data engine = record { engine = engine; func_new = []; func_wrap = []; last_panic = nil }

alloc_data : ℕ → Exec World ℕ
alloc_data engine w =
    return (length w.store_data) (record w { store_data = w.store_data ++ fresh_data engine ∷ [] })

-- `*data`, and a write to it
abbrev pub load_data : Option ℕ → Exec World StoreData
load_data ptr = do d ← or_nil ptr; objects ← gets (λ w. w.store_data); or_nil (get_elem? objects d)

abbrev pub store_data_at : Option ℕ → StoreData → Exec World (Unit {0})
store_data_at ptr v = do
  d ← or_nil ptr
  modify (λ w. record w { store_data = set w.store_data d v })

-- NewStore; the result is the `env` of the new store
unfoldable pub new_store : ℕ → Exec World ℕ
unfolding alloc_data
new_store engine = do ptr ← alloc_data engine; in_stores (Registry.insert ptr)

-- goFinalizeStore
unfoldable pub go_finalize_store : ℕ → Exec World (Unit {0})
go_finalize_store env = in_stores (Registry.remove env)

-- A `Storelike`: a `*Store`, by its env, or a `*Caller`.
pub data Storelike : Type 0 where
  store caller : ℕ → Storelike

caller_context : Option ℕ → Exec World ℕ
caller_context none = throw (text "cannot use caller after host function returns")
caller_context (some env) = return env

-- Context; a context stands for the env that wasmtime_context_get_data reads from it
unfoldable pub context : Storelike → Exec World ℕ
unfolding caller_context
context (store env) = return env
context (caller c) = do
  objects ← gets (λ w. w.callers)
  ptr ← or_nil (get_elem? objects c)
  caller_context ptr

-- getDataInStore
unfoldable pub get_data_in_store : Storelike → Exec World (Option ℕ)
unfolding context
get_data_in_store s = do env ← context s; gets (λ w. w.stores.entries env)

-- insertFuncNew
unfoldable pub insert_func_new : Option ℕ → FuncType → ℕ → Exec World ℕ
insert_func_new none ty callback = do
  idx ← in_engine_new (Registry.insert (record { callback = callback; results = ty.results }))
  return (shl1 idx)
insert_func_new (some d) ty callback = do
  data' ← load_data (some d)
  let idx = length data'.func_new
  let entry : FuncNewEntry = record { callback = callback; results = ty.results }
  store_data_at (some d) (record data' { func_new = data'.func_new ++ entry ∷ [] })
  return (or1 (shl1 idx))

-- getFuncNew; a key that the map does not hold gives a nil pointer
unfoldable pub get_func_new : Option ℕ → ℕ → Exec World (Option FuncNewEntry)
get_func_new ptr idx = if and1 idx == 0 then gets (λ w. w.engine_new.entries (shr1 idx)) else do
  data' ← load_data ptr
  entry ← or_out_of_range (get_elem? data'.func_new (shr1 idx))
  return (some entry)

-- insertFuncWrap
unfoldable pub insert_func_wrap : Option ℕ → Callback → Exec World ℕ
insert_func_wrap none callback = do
  idx ← in_engine_wrap (Registry.insert (record { callback = callback }))
  return (shl1 idx)
insert_func_wrap (some d) callback = do
  data' ← load_data (some d)
  let idx = length data'.func_wrap
  let entry : FuncWrapEntry = record { callback = callback }
  store_data_at (some d) (record data' { func_wrap = data'.func_wrap ++ entry ∷ [] })
  return (or1 (shl1 idx))

-- getFuncWrap
unfoldable pub get_func_wrap : Option ℕ → ℕ → Exec World (Option FuncWrapEntry)
get_func_wrap ptr idx = if and1 idx == 0 then gets (λ w. w.engine_wrap.entries (shr1 idx)) else do
  data' ← load_data ptr
  entry ← or_out_of_range (get_elem? data'.func_wrap (shr1 idx))
  return (some entry)

-- goFinalizeFuncNew
unfoldable pub go_finalize_func_new : ℕ → Exec World (Unit {0})
go_finalize_func_new idx =
    if and1 idx == 0
    then in_engine_new (Registry.remove (shr1 idx))
    else throw (text "shouldn't finalize a store-local index")

-- goFinalizeFuncWrap
unfoldable pub go_finalize_func_wrap : ℕ → Exec World (Unit {0})
go_finalize_func_wrap idx =
    if and1 idx == 0
    then in_engine_wrap (Registry.remove (shr1 idx))
    else throw (text "shouldn't finalize a store-local index")
