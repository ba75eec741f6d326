-- ===== src/Linker.antt =====
-- linker.go and instance.go: functions that a linker hands to no store, and instantiation.
pub mod Definitions
pub mod Instantiation
use mathlib.Core.Option
use wasmtime_go.Base.{ℕ, Option, none, some}
use wasmtime_go.Go.Outcome.{Exec, return, lift, or_nil, ◌>>=◌}
use wasmtime_go.Kind.{FuncType}
use wasmtime_go.World.{World, Callback}
use wasmtime_go.Store.{Storelike, context, insert_func_new, insert_func_wrap}
use wasmtime_go.Infer.{infer_func_type}
use wasmtime_go.Enter.{GoError, failed, Ran, enter_wasm}
use wasmtime_go.Call.{Registered, wrap_func}

-- What the code calls of wasmtime, by the type and the env of the function; an error is a C pointer,
-- none for nil. `define_func` also takes the kind of the function, which is 1 for `FuncWrap`.
pub record LinkerApi : Type 0 where
  pub define_func : FuncType → ℕ → ℕ → Exec World (Option ℕ)
  pub define : Registered → Exec World (Option ℕ)

abbrev pub error_of : Option ℕ → Option GoError
error_of none = none
error_of (some e) = some (failed e)

-- Linker.FuncNew
unfoldable pub func_new : LinkerApi → FuncType → ℕ → Exec World (Option GoError)
func_new api ty f = do
  idx ← insert_func_new none ty f
  err ← api.define_func ty 0 idx
  return (error_of err)

-- Linker.FuncWrap
unfoldable pub func_wrap : LinkerApi → Option Callback → Exec World (Option GoError)
func_wrap api f = do
  ty ← lift (infer_func_type (Option.map (λ c. c.signature) f))
  callback ← or_nil f
  idx ← insert_func_wrap none callback
  err ← api.define_func ty 1 idx
  return (error_of err)

-- Linker.DefineFunc, with Linker.Define for the function that it makes
unfoldable pub define_func : LinkerApi → Storelike → Option Callback → Exec World (Option GoError)
define_func api s f = do
  item ← wrap_func s f
  _ ← context s
  err ← api.define item
  return (error_of err)

-- The instance, or the error.
pub record Instantiated : Type 0 where
  pub instance' : Option ℕ
  pub error : Option GoError

pub finish_instance : Option GoError × ℕ → Instantiated
finish_instance (some e, val) = record { instance' = none; error = some e }
finish_instance (none, val) = record { instance' = some val; error = none }

-- Linker.Instantiate and NewInstance, with the run of wasmtime that makes the instance and runs its
-- start function
unfoldable pub instantiate : Storelike → Exec World (Ran ℕ) → Exec World Instantiated
unfolding finish_instance
instantiate s run = do
  result ← enter_wasm s (do _ ← context s; run)
  return (finish_instance result)
