-- ===== src/Context.antt =====
-- The C side of store.go: the store that NewStore makes, its fuel, limits and deadline, and its WASI
-- context. A `*os.File` is its descriptor; a store is a reference, and its context is its pointer.
pub mod Ownership
use wasmtime_go.Base.{ℕ, Bool, true, false, not, Option, none, some}
use wasmtime_go.Go.Value.{text}
use wasmtime_go.Go.Outcome.{Exec, return, throw, gets, ◌>>=◌, ◌>>◌}
use wasmtime_go.Native.{Class, Request, State, Wasmtime, call, construct, mk_error, checked}

-- Store.GC, Store.SetEpochDeadline and Store.Limiter
abbrev pub gc : ℕ → Exec State (Unit {0})
gc store = call Class.store store Request.context_gc

abbrev pub set_epoch_deadline : ℕ → ℕ → Exec State (Unit {0})
set_epoch_deadline store deadline = call Class.store store (Request.set_epoch_deadline deadline)

abbrev pub limiter : ℕ → ℕ → ℕ → ℕ → ℕ → ℕ → Exec State (Unit {0})
limiter store memory_size table_elements instances tables memories =
    call Class.store store (Request.limiter memory_size table_elements instances tables memories)

-- NewFunc and WrapFunc, after the function has its env, and the call of wasmtime in Func.Call
abbrev pub make_func : ℕ → ℕ → ℕ → Exec State (Unit {0})
make_func store kind env = call Class.store store (Request.func_new kind env)

abbrev pub start_call : ℕ → ℕ → Exec State (Unit {0})
start_call store f = call Class.store store (Request.func_call f)

-- SetWasiCtx, of a `*WasiCtx` by its C pointer, none for nil
unfoldable pub set_wasi_ctx : ℕ → Option ℕ → Exec State (Unit {0})
set_wasi_ctx store none = throw (text "cannot set a nil WasiCtx")
set_wasi_ctx store (some ctx) = call Class.store store (Request.context_set_wasi_ctx ctx)

module _ (api : Wasmtime) where
  -- NewStore, after the store has its index
  unfoldable pub open_store : ℕ → Exec State ℕ
  open_store engine = do call Class.engine engine Request.store_new; construct api Class.store

  -- The error of wasmtime in enterWasm, once wasm has returned
  abbrev pub left_wasm : Exec State (Option ℕ)
  left_wasm = checked api

  -- Store.FuelConsumed
  unfoldable pub fuel_consumed : ℕ → Exec State (ℕ × Bool)
  fuel_consumed store = do
    call Class.store store Request.fuel_consumed
    fuel ← gets (λ s. api.number s.log)
    disabled ← gets (λ s. api.fails s.log)
    return (fuel, not disabled)

  -- Store.AddFuel
  abbrev pub add_fuel : ℕ → ℕ → Exec State (Option ℕ)
  add_fuel store fuel = do call Class.store store (Request.add_fuel fuel); checked api

  number_or : Bool → Exec State (ℕ × Option ℕ)
  number_or true = do e ← mk_error api; return (0, some e)
  number_or false = do n ← gets (λ s. api.number s.log); return (n, none)

  -- if err != nil { return 0, mkError(err) }; return n, nil
  unfoldable pub checked_number : Exec State (ℕ × Option ℕ)
  unfolding number_or
  checked_number = do failed ← gets (λ s. api.fails s.log); number_or failed

  -- Store.ConsumeFuel
  abbrev pub consume_fuel : ℕ → ℕ → Exec State (ℕ × Option ℕ)
  consume_fuel store fuel = do
    call Class.store store (Request.context_consume_fuel fuel)
    checked_number

  -- GetWasiCtx, with the C pointer of the context
  unfoldable pub get_wasi_ctx : ℕ → Exec State ℕ
  get_wasi_ctx store = do
    call Class.store store Request.set_default_wasi_if_not_exist
    call Class.store store Request.get_wasi_ctx
    gets (λ s. api.number s.log)

  -- StoreInsertFile and StorePushFile
  abbrev pub store_insert_file : ℕ → ℕ → ℕ → ℕ → Exec State (Option ℕ)
  store_insert_file store guest_fd file access_mode = do
    call Class.store store (Request.context_insert_file guest_fd file access_mode)
    checked api

  abbrev pub store_push_file : ℕ → ℕ → ℕ → Exec State (ℕ × Option ℕ)
  store_push_file store file access_mode = do
    call Class.store store (Request.context_push_file file access_mode)
    checked_number
