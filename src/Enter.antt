-- ===== src/Enter.antt =====
-- func.go: `enterWasm`, which every call into wasm goes through, and the errors that it returns.
pub mod Propagation
use wasmtime_go.Base.{ℕ, String, Bool, true, false, Option, none, some, if◌then◌else◌}
use wasmtime_go.Go.Value.{Any, nil}
use wasmtime_go.Go.Outcome.{Exec, return, throw, ◌>>=◌, ◌>>◌}
use wasmtime_go.World.{World}
use wasmtime_go.Store.{Storelike, get_data_in_store, load_data, store_data_at}
use wasmtime_go.Trap.{mk_trap}

-- An `error` that is not nil: a `*Trap`, an `*Error` by its C pointer, or errors.New.
pub data GoError : Type 0 where
  trapped failed : ℕ → GoError
  message : String → GoError

abbrev pub is_nil : Any → Bool
is_nil nil = true
is_nil _ = false

-- if trap != nil { wrappedTrap = mkTrap(trap) }
wrap_trap : Option ℕ → Exec World (Option ℕ)
unfolding mk_trap
wrap_trap none = return none
wrap_trap (some ptr) = do t ← mk_trap ptr; return (some t)

abbrev pub choose_error : Option ℕ → Option ℕ → Option GoError
choose_error (some t) err = some (trapped t)
choose_error none (some e) = some (failed e)
choose_error none none = none

-- What a run of wasm gives back: the C trap and the C error, each none for nil, and what it wrote
-- to the memory that the caller handed it.
pub record Ran (A : Type 0) : Type 0 where
  pub trap : Option ℕ
  pub error : Option ℕ
  pub output : A

-- The propagation of a panic, and otherwise the choice of the error.
propagate : {A : Type 0} → Option ℕ → Option ℕ → Ran A → Exec World (Option GoError × A)
propagate ptr wrapped ran = do
  data' ← load_data ptr
  if is_nil data'.last_panic
      then return (choose_error wrapped ran.error, ran.output)
      else do store_data_at ptr (record data' { last_panic = nil }); throw data'.last_panic

-- enterWasm
unfoldable pub enter_wasm :
    {A : Type 0} → Storelike → Exec World (Ran A) → Exec World (Option GoError × A)
unfolding wrap_trap propagate
enter_wasm context wasm = do
  ptr ← get_data_in_store context
  ran ← wasm
  wrapped ← wrap_trap ran.trap
  propagate ptr wrapped ran
